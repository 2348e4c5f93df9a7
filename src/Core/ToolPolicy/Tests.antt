-- ===== src/Core/ToolPolicy/Tests.antt =====
-- Tool choices on concrete values.
use cmm_routers.Prelude.{◌≡◌, refl, some, string_eq}
use cmm_routers.Core.Json.{str, obj, field, end}
use cmm_routers.Core.Errors.{RouterError, ok, err, invalid_request}
use cmm_routers.Core.Model.{NormalizedToolChoice, google}
use cmm_routers.Core.ToolPolicy.{
  parse_chat_tool_choice, parse_responses_tool_choice, to_chat_wire_tool_choice,
  parse_string_tool_choice, provider_tool_policy_support, auto_only,
}
use cmm_routers.Core.ToolPolicy.Surfaces.{surfaces_disagree}

abbrev lookup : NormalizedToolChoice
lookup = NormalizedToolChoice.named "lookup"

lookup_is_parsed :
    parse_chat_tool_choice (to_chat_wire_tool_choice (some lookup)) ≡ some (ok lookup)
unfolding parse_chat_tool_choice to_chat_wire_tool_choice parse_string_tool_choice
lookup_is_parsed = refl

surfaces_disagree_example :
    ((e : RouterError) × (parse_responses_tool_choice (to_chat_wire_tool_choice (some lookup))
        ≡ some (err e))
      × (e.code ≡ invalid_request))
    × ((e : RouterError) × (parse_chat_tool_choice
            (some (obj (field "type" (str "function") (field "name" (str "lookup") end))))
          ≡ some (err e))
        × (e.code ≡ invalid_request))
surfaces_disagree_example = surfaces_disagree "lookup"

google_is_auto_only : (provider_tool_policy_support google).tool_choice ≡ auto_only
unfolding provider_tool_policy_support
google_is_auto_only = refl
