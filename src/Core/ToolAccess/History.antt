-- ===== src/Core/ToolAccess/History.antt =====
-- src/core/tool-access-policy.ts: `inspectToolHistory` and `assertProfileForToolSemantics`.
use cmm_routers.Prelude.{
  String, Bool, true, false, not, ◌&&◌, ◌||◌, Option, none, some, List, [], ◌∷◌, ◌++◌, ◌==◌,
  string_eq, map, any, all, contains, if◌then◌else◌,
}
use cmm_routers.Core.Errors.{Result, ok, err, router_error, invalid_request}
use cmm_routers.Core.Profile.{RouterProfile}
use cmm_routers.Core.Model.{
  RouterFunctionTool, RouterMessage, RouterToolCall, Role, assistant, tool,
}

abbrev pub is_assistant : Role → Bool
is_assistant assistant = true
is_assistant _ = false

abbrev pub is_tool : Role → Bool
is_tool tool = true
is_tool _ = false

abbrev pub is_nil {ℓ} : {A : Type ℓ} → List A → Bool
is_nil [] = true
is_nil (x ∷ xs) = false

pub record ToolHistory : Type 0 where
  pub has_assistant_calls : Bool
  pub has_tool_results : Bool
  pub assistant_call_names : List String
  pub correlated : Bool

-- the variables of the loop over the messages
pub record Scan : Type 0 where
  pub call_names : List String
  pub call_ids : List String
  pub result_ids : List String
  pub has_assistant_calls : Bool
  pub has_tool_results : Bool
  pub every_result_has_id : Bool

abbrev pub note_calls : Scan → Option (List RouterToolCall) → Scan
note_calls s none = s
note_calls s (some calls) = record s {
  has_assistant_calls = true;
  call_names = s.call_names ++ map (λ c. c.name) calls;
  call_ids = s.call_ids ++ map (λ c. c.id) calls;
}

abbrev pub note_result : Scan → Option String → Scan
note_result s none = record s { has_tool_results = true; every_result_has_id = false }
note_result s (some id) =
    if id == ""
    then record s { has_tool_results = true; every_result_has_id = false }
    else record s { has_tool_results = true; result_ids = s.result_ids ++ id ∷ [] }

unfoldable pub scan_message : Scan → RouterMessage → Scan
scan_message s m =
    let s' = if is_assistant m.role then note_calls s m.tool_calls else s in
    if is_tool m.role then note_result s' m.tool_call_id else s'

unfoldable pub scan_messages : Scan → List RouterMessage → Scan
scan_messages s [] = s
scan_messages s (m ∷ ms) = scan_messages (scan_message s m) ms

abbrev pub start : Scan
start = record {
  call_names = [];
  call_ids = [];
  result_ids = [];
  has_assistant_calls = false;
  has_tool_results = false;
  every_result_has_id = true;
}

abbrev pub history_of : Scan → ToolHistory
history_of s = record {
  has_assistant_calls = s.has_assistant_calls;
  has_tool_results = s.has_tool_results;
  assistant_call_names = s.call_names;
  correlated =
      s.every_result_has_id
      && (is_nil s.result_ids || s.has_assistant_calls)
      && all (contains s.call_ids) s.result_ids;
}

unfoldable pub inspect_tool_history : List RouterMessage → ToolHistory
unfolding scan_messages scan_message
inspect_tool_history messages = history_of (scan_messages start messages)

abbrev pub has_calls : Option (List RouterToolCall) → Bool
has_calls none = false
has_calls (some calls) = not (is_nil calls)

abbrev pub continues : RouterMessage → Bool
continues m = is_tool m.role || is_assistant m.role && has_calls m.tool_calls

unfoldable pub assert_profile_for_tool_semantics :
    Option RouterProfile → List RouterFunctionTool → List RouterMessage → Result (Unit {0})
assert_profile_for_tool_semantics (some profile) tools messages = ok tt
assert_profile_for_tool_semantics none tools messages =
    if not (is_nil tools)
    then err (
        router_error invalid_request
          "Tool declarations require an authenticated router profile; refusing to assume AGENT")
    else if any continues messages
    then err (
        router_error invalid_request
          "Tool-result continuation requires an authenticated router profile; refusing to assume AGENT")
    else ok tt
