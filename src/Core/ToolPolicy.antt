-- ===== src/Core/ToolPolicy.antt =====
-- src/core/tool-policy.ts: how a caller's tool selection is read from each wire and what each
-- provider can carry of it. A result of type `NormalizedToolChoice | RouterError | undefined` is an
-- optional `Result`.
pub mod Anthropic
pub mod Surfaces
pub mod Providers
mod Tests
use cmm_routers.Prelude.{
  String, Bool, true, false, not, ◌&&◌, Option, none, some, List, [], ◌∷◌, ◌==◌, string_eq,
  if◌then◌else◌, is_some,
}
use cmm_routers.Core.Json.{
  Json, str, obj, Fields, end, field, bool, prop, as_string, as_record, is_str, is_bool,
}
use cmm_routers.Core.Errors.{
  RouterError, Result, ok, err, router_error, template, invalid_request, unsupported_capability,
}
use cmm_routers.Core.Model.{
  ProviderId, chatgpt, claude, google, command_code, cavoti, provider_text, NormalizedToolChoice,
  auto, required, named,
}

-- s.length > 0
abbrev pub non_empty : String → Bool
non_empty s = not (s == "")

abbrev pub tool_choice_shape_help : String
tool_choice_shape_help =
    "tool_choice must be 'auto', 'none', 'required', or a named function object"

-- `raw.length > 0` of a property that has to be a string
abbrev pub named_by : Option String → Option NormalizedToolChoice
named_by none = none
named_by (some name) = if non_empty name then some (named name) else none

unfoldable pub parse_string_tool_choice : Json → Option NormalizedToolChoice
parse_string_tool_choice raw =
    if is_str (some raw) "auto"
    then some auto
    else if is_str (some raw) "none"
    then some NormalizedToolChoice.none
    else if is_str (some raw) "required"
    then some required
    else none

abbrev pub or_error : Option NormalizedToolChoice → String → Result NormalizedToolChoice
or_error none message = err (router_error invalid_request message)
or_error (some choice) message = ok choice

abbrev pub nested_name : Fields → Option String
nested_name raw = elim (as_record (prop raw "function")) [
  | none ↦ none
  | some fn ↦ as_string (prop fn "name")
]

parse_chat_object : Option Fields → Result NormalizedToolChoice
parse_chat_object none = err (router_error invalid_request tool_choice_shape_help)
parse_chat_object (some raw) =
    if is_str (prop raw "type") "function"
    then or_error (named_by (nested_name raw))
        "tool_choice function form requires a non-empty function.name"
    else err (router_error invalid_request tool_choice_shape_help)

parse_chat_value : Option NormalizedToolChoice → Json → Result NormalizedToolChoice
parse_chat_value (some choice) raw = ok choice
parse_chat_value none raw = parse_chat_object (as_record (some raw))

-- Chat Completions: a named choice is nested
unfoldable pub parse_chat_tool_choice : Option Json → Option (Result NormalizedToolChoice)
unfolding parse_chat_value parse_chat_object parse_string_tool_choice
parse_chat_tool_choice none = none
parse_chat_tool_choice (some raw) = some (parse_chat_value (parse_string_tool_choice raw) raw)

parse_responses_object : Option Fields → Result NormalizedToolChoice
parse_responses_object none = err (router_error invalid_request tool_choice_shape_help)
parse_responses_object (some raw) =
    if is_str (prop raw "type") "function"
    then or_error (named_by (as_string (prop raw "name")))
        "tool_choice function form requires a non-empty name"
    else err (router_error invalid_request tool_choice_shape_help)

parse_responses_value : Option NormalizedToolChoice → Json → Result NormalizedToolChoice
parse_responses_value (some choice) raw = ok choice
parse_responses_value none raw = parse_responses_object (as_record (some raw))

-- Responses: a named choice is flat
unfoldable pub parse_responses_tool_choice : Option Json → Option (Result NormalizedToolChoice)
unfolding parse_responses_value parse_responses_object parse_string_tool_choice
parse_responses_tool_choice none = none
parse_responses_tool_choice (some raw) =
    some (parse_responses_value (parse_string_tool_choice raw) raw)

-- a normalized choice as the object that the program passes on
abbrev pub choice_object : NormalizedToolChoice → Json
choice_object auto = obj (field "kind" (str "auto") end)
choice_object NormalizedToolChoice.none = obj (field "kind" (str "none") end)
choice_object required = obj (field "kind" (str "required") end)
choice_object (named name) = obj (field "kind" (str "named") (field "name" (str name) end))

-- the normalized choice that an object is, if it is one
abbrev pub normalized_fields : Fields → Option NormalizedToolChoice
normalized_fields value =
    if is_str (prop value "kind") "auto"
    then some auto
    else if is_str (prop value "kind") "none"
    then some NormalizedToolChoice.none
    else if is_str (prop value "kind") "required"
    then some required
    else if is_str (prop value "kind") "named"
    then named_by (as_string (prop value "name"))
    else none

unfoldable pub normalized : Json → Option NormalizedToolChoice
normalized value = elim (as_record (some value)) [
  | none ↦ none
  | some fields ↦ normalized_fields fields
]

unfoldable pub is_normalized_tool_choice : Json → Bool
unfolding normalized
is_normalized_tool_choice value = is_some (normalized value)

unfoldable pub to_chat_wire_tool_choice : Option NormalizedToolChoice → Option Json
to_chat_wire_tool_choice none = none
to_chat_wire_tool_choice (some (named name)) =
    some (
      obj
        (field "type" (str "function") (field "function" (obj (field "name" (str name) end)) end)))
to_chat_wire_tool_choice (some auto) = some (str "auto")
to_chat_wire_tool_choice (some NormalizedToolChoice.none) = some (str "none")
to_chat_wire_tool_choice (some required) = some (str "required")

abbrev unsupported : ProviderId → String → RouterError
unsupported provider what = router_error unsupported_capability (
    template (
      provider_text provider
      ∷ " cannot represent the requested "
      ∷ what
      ∷ "; refusing to drop it silently"
      ∷ []))

-- `policy !== undefined && policy.kind !== "auto"`
abbrev pub selects : Option NormalizedToolChoice → Bool
selects none = false
selects (some auto) = false
selects (some _) = true

-- `parallelToolCalls === false`
abbrev pub is_false : Option Bool → Bool
is_false (some false) = true
is_false _ = false

enforce_parallel : ProviderId → Option Bool → Option RouterError
enforce_parallel provider none = none
enforce_parallel provider (some true) = some (unsupported provider "parallel_tool_calls=true")
enforce_parallel provider (some false) = some (unsupported provider "parallel_tool_calls=false")

enforce_exact : ProviderId → Option NormalizedToolChoice → Option Bool → Option RouterError
enforce_exact provider policy parallel =
    if selects policy
    then some (unsupported provider "tool_choice")
    else enforce_parallel provider parallel

unfoldable pub enforce_provider_tool_policy :
    ProviderId → Option NormalizedToolChoice → Option Bool → Option RouterError
unfolding enforce_exact enforce_parallel
enforce_provider_tool_policy chatgpt policy parallel =
    if selects policy
    then some (unsupported chatgpt "tool_choice")
    else if is_false parallel
    then some (unsupported chatgpt "parallel_tool_calls=false")
    else none
enforce_provider_tool_policy claude policy parallel = enforce_exact claude policy parallel
enforce_provider_tool_policy google policy parallel = enforce_exact google policy parallel
enforce_provider_tool_policy command_code policy parallel = none
enforce_provider_tool_policy cavoti policy parallel = none

pub data ToolChoiceSupport : Type 0 where
  full auto_only : ToolChoiceSupport

pub record ToolPolicySupport : Type 0 where
  pub tool_choice : ToolChoiceSupport
  pub parallel_tool_calls : Bool

unfoldable pub provider_tool_policy_support : ProviderId → ToolPolicySupport
provider_tool_policy_support chatgpt = record {
  tool_choice = auto_only;
  parallel_tool_calls = false;
}
provider_tool_policy_support claude = record {
  tool_choice = auto_only;
  parallel_tool_calls = false;
}
provider_tool_policy_support google = record {
  tool_choice = auto_only;
  parallel_tool_calls = false;
}
provider_tool_policy_support command_code = record {
  tool_choice = full;
  parallel_tool_calls = true;
}
provider_tool_policy_support cavoti = record { tool_choice = full; parallel_tool_calls = true }
