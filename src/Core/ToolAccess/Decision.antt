-- ===== src/Core/ToolAccess/Decision.antt =====
-- src/core/tool-access-policy.ts: `resolveToolAccess`.
use cmm_routers.Prelude.{
  String, Bool, false, not, ◌&&◌, ◌||◌, Option, none, some, List, [], ◌∷◌, ◌==◌, string_eq, nat_eq,
  map, length, any, contains, is_some, get_or_else, if◌then◌else◌,
}
use cmm_routers.Prelude.OrderedMap.{has}
use cmm_routers.Core.Errors.{
  RouterError, Result, ok, err, router_error, template, invalid_request, unsupported_capability,
}
use cmm_routers.Core.Profile.{RouterProfile, chat, agent, carries_tools}
use cmm_routers.Core.Model.{RouterFunctionTool, NormalizedToolChoice}
use cmm_routers.Core.ToolPolicy.{enforce_provider_tool_policy}
use cmm_routers.Core.ScopedActions.{ScopedActionRegistry, to_router_tool}
use cmm_routers.Core.ToolAccess.Types.{
  ToolAccessMode, ToolAccessRequest, ToolAccessDecision, allow, deny,
}
use cmm_routers.Core.ToolAccess.NameSet.{to_set}
use cmm_routers.Core.ToolAccess.History.{ToolHistory, inspect_tool_history, is_nil}

abbrev refuse : List String → RouterError
refuse parts = router_error unsupported_capability (template parts)

abbrev tools_denial : RouterError
tools_denial = refuse ("Model supports chat only; tools are not supported on this route" ∷ [])

abbrev selection_denial : RouterError
selection_denial =
    refuse ("Model supports chat only; tool selection is not supported on this route" ∷ [])

abbrev continuation_denial : RouterError
continuation_denial =
    refuse
      ("Model supports chat only; tool-result continuation is not supported on this route" ∷ [])

abbrev history_denial : RouterError
history_denial =
    refuse
      ("Model supports chat only; assistant tool-call history is not supported on this route" ∷ [])

-- `request.toolChoice?.kind === "named" && !allowed.has(request.toolChoice.name)`
abbrev pub names_undeclared : Option NormalizedToolChoice → List String → Bool
names_undeclared (some (NormalizedToolChoice.named name)) allowed = not (contains allowed name)
names_undeclared _ allowed = false

abbrev or_deny : Option RouterError → ToolAccessDecision → ToolAccessDecision
or_deny none rest = rest
or_deny (some e) rest = deny e

-- the loop that checks the names against the registry and the grants
unfoldable pub check_names : ScopedActionRegistry → List String → List String → Option RouterError
check_names registry grants [] = none
check_names registry grants (name ∷ names) =
    let rest = check_names registry grants names in
    if not (has registry name)
    then some (refuse ("Scoped action " ∷ name ∷ " is not registered by the Router" ∷ []))
    else if not (contains grants name)
    then some (refuse ("Scoped action " ∷ name ∷ " is not granted to this CHAT session" ∷ []))
    else rest

abbrev prepend :
    RouterFunctionTool → Result (List RouterFunctionTool) → Result (List RouterFunctionTool)
prepend t (ok ts) = ok (t ∷ ts)
prepend t (err e) = err e

-- the loop that collects the canonical definitions
unfoldable pub canonical_tools :
    ScopedActionRegistry → List String → Result (List RouterFunctionTool)
canonical_tools registry [] = ok []
canonical_tools registry (name ∷ names) = elim (to_router_tool registry name) [
  | none ↦ err (refuse ("Scoped action " ∷ name ∷ " disappeared from the Router registry" ∷ []))
  | some t ↦ prepend t (canonical_tools registry names)
]

-- the loop over the names in the assistant's calls
unfoldable pub check_history_names : List String → List String → Option RouterError
check_history_names allowed [] = none
check_history_names allowed (name ∷ names) =
    let rest = check_history_names allowed names in
    if not (contains allowed name)
    then some (
        refuse (
          "Assistant tool-call history names " ∷ name ∷ ", which is not a granted scoped action"
          ∷ []))
    else rest

abbrev no_grants : RouterError
no_grants =
    refuse
      ("CHAT profile has no scoped actions granted; tools are not available on this route" ∷ [])

-- CHAT, once the declared names are registered and granted
unfoldable pub scoped_access :
    ToolAccessRequest
    → ToolHistory
    → List String
    → List String
    → List RouterFunctionTool
    → ToolAccessDecision
scoped_access r history names grants tools =
    let allowed = to_set names in
    or_deny (check_history_names allowed history.assistant_call_names) (
      if (history.has_tool_results || history.has_assistant_calls) && not history.correlated
      then deny (
          router_error invalid_request
            "CHAT tool-result continuation must reference an assistant tool call in this request")
      else if names_undeclared r.tool_choice allowed
      then deny (
          router_error invalid_request
            "tool_choice names a function that is not a granted scoped action")
      else allow (record {
        mode = ToolAccessMode.scoped;
        tools = tools;
        allowed_tool_names = allowed;
        granted_actions = grants;
      }))

unfoldable pub canonical_access :
    ToolAccessRequest
    → ToolHistory
    → List String
    → List String
    → ScopedActionRegistry
    → ToolAccessDecision
canonical_access r history names grants registry = elim (canonical_tools registry names) [
  | err e ↦ deny e
  | ok tools ↦ scoped_access r history names grants tools
]

unfoldable pub granted_access :
    ToolAccessRequest
    → ToolHistory
    → List String
    → List String
    → Option ScopedActionRegistry
    → ToolAccessDecision
granted_access r history names grants none = deny no_grants
granted_access r history names grants (some registry) =
    if is_nil grants
    then deny no_grants
    else or_deny (check_names registry grants names)
        (canonical_access r history names grants registry)

abbrev tool_selection : ToolAccessRequest → Bool
tool_selection r = is_some r.tool_choice || is_some r.parallel_tool_calls

unfoldable pub chat_access : ToolAccessRequest → ToolHistory → List String → ToolAccessDecision
chat_access r history names =
    let grants = to_set (get_or_else r.granted_actions []) in
    if not (is_nil r.tools)
    then (if any (λ name. name == "") names || not (length (to_set names) == length names)
        then deny (
            router_error invalid_request
              "CHAT scoped-action declarations must have unique, non-empty function names")
        else granted_access r history names grants r.scoped_actions)
    else if tool_selection r || history.has_assistant_calls || history.has_tool_results
    then deny
        (refuse ("CHAT profile has no scoped action grant for the requested tool semantics" ∷ []))
    else allow (record {
      mode = ToolAccessMode.none;
      tools = [];
      allowed_tool_names = [];
      granted_actions = grants;
    })

unfoldable pub agent_access : ToolAccessRequest → List String → ToolAccessDecision
agent_access r names =
    if names_undeclared r.tool_choice (to_set names)
    then deny (
        router_error invalid_request
          "tool_choice names a function that is not declared in this request")
    else allow (record {
      mode = ToolAccessMode.agent;
      tools = r.tools;
      allowed_tool_names = to_set names;
      granted_actions = [];
    })

abbrev by_profile :
    ToolAccessRequest → ToolHistory → List String → RouterProfile → ToolAccessDecision
by_profile r history names agent = agent_access r names
by_profile r history names chat = chat_access r history names

unfoldable pub resolve_tool_access : ToolAccessRequest → ToolAccessDecision
resolve_tool_access r =
    let history = inspect_tool_history r.messages in
    let capable = carries_tools r.provider_capability in
    if not (is_nil r.tools) && not capable
    then deny tools_denial
    else if tool_selection r && not capable
    then deny selection_denial
    else if history.has_tool_results && not capable
    then deny continuation_denial
    else if history.has_assistant_calls && not capable
    then deny history_denial
    else or_deny (enforce_provider_tool_policy r.provider r.tool_choice r.parallel_tool_calls)
        (by_profile r history (map (λ t. t.name) r.tools) r.profile)
