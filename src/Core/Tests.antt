-- ===== src/Core/Tests.antt =====
-- Declarations of tools and scoped actions on concrete values.
use cmm_routers.Prelude.{◌≡◌, ◌↔◌, refl, none, some, All, [], ◌∷◌, string_eq}
use cmm_routers.Prelude.OrderedMap.{get, put}
use cmm_routers.Core.Json.{Fields, str, num, obj, field, end}
use cmm_routers.Core.Errors.{ok}
use cmm_routers.Core.Model.{RouterMessage, RouterToolResultStatus, Role}
use cmm_routers.Core.RequestControls.{
  openai_unsupported_semantic_controls, reject_unsupported_controls,
  unsupported_request_control_error,
}
use cmm_routers.Core.ToolResultBound.{
  assert_tool_results_within_bound, IsWithinBound, assert_tool_results_within_bound_iff,
}
use cmm_routers.Core.ScopedActions.{
  ScopedActionDefinition, ScopedActionRegistry, IsSound, new_registry, register, assert_definition,
  matches_action_id, new_registry-IsSound,
}

abbrev web_search : Fields
web_search = field "type" (str "web_search") end

abbrev lookup : ScopedActionDefinition
lookup = record {
  id = "docs.lookup";
  display_name = "Lookup";
  description = "Looks a document up.";
  parameters = obj end;
  side_effect = "read";
}

abbrev registry : ScopedActionRegistry
registry = ("docs.lookup", lookup) ∷ []

is_built : new_registry (lookup ∷ []) ≡ ok registry
unfolding new_registry register assert_definition matches_action_id get put
is_built = refl

new_registry-IsSound_example : IsSound registry
new_registry-IsSound_example = new_registry-IsSound (lookup ∷ []) registry is_built

abbrev body : Fields
body = field "model" (str "claude/opus") (field "top_k" (num 3) end)

is_rejected :
    reject_unsupported_controls body openai_unsupported_semantic_controls "Chat Completions"
    ≡ some (unsupported_request_control_error "top_k" "Chat Completions" none)
unfolding reject_unsupported_controls
is_rejected = refl

abbrev result : RouterMessage
result = record {
  role = Role.tool;
  content = some "found";
  images = none;
  tool_call_id = some "c1";
  name = none;
  tool_result_status = some RouterToolResultStatus.error;
  tool_calls = none;
}

assert_tool_results_within_bound_iff_example :
    (assert_tool_results_within_bound (result ∷ []) ≡ ok tt)
    ↔ All (λ m. IsWithinBound m.role m.content) (result ∷ [])
assert_tool_results_within_bound_iff_example = assert_tool_results_within_bound_iff (result ∷ [])
