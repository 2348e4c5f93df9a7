-- ===== src/Core/ToolAccess/Tests.antt =====
-- Tool access on concrete requests.
use cmm_routers.Prelude.{◌≡◌, refl, false, none, some, List, [], ◌∷◌, string_eq, any, all}
use cmm_routers.Core.Json.{obj, end}
use cmm_routers.Core.Profile.{chat, agent, chat_and_tools, chat_only}
use cmm_routers.Core.Model.{
  command_code, google, RouterFunctionTool, RouterMessage, Role, NormalizedToolChoice,
}
use cmm_routers.Core.ToolPolicy.{enforce_provider_tool_policy}
use cmm_routers.Core.ScopedActions.{ScopedActionDefinition, ScopedActionRegistry}
use cmm_routers.Core.ToolAccess.Types.{
  ToolAccessMode, ToolAccessRequest, EffectiveToolAccess, allow,
}
use cmm_routers.Core.ToolAccess.NameSet.{to_set, without}
use cmm_routers.Core.ToolAccess.History.{inspect_tool_history, scan_messages, scan_message, is_tool}
use cmm_routers.Core.ToolAccess.Decision.{chat_access, agent_access, resolve_tool_access}
use cmm_routers.Core.ToolAccess.Grants.{ChoosesDeclared, names_of, agent_allowed}
use cmm_routers.Core.ToolAccess.Refusals.{incapable_allowed}
use cmm_routers.Core.ToolAccess.Correlation.{
  inspect_tool_history_lem, carries_calls, answers_if_tool, call_ids_of,
}

abbrev lookup : ScopedActionDefinition
lookup = record {
  id = "docs.lookup";
  display_name = "Lookup";
  description = "Looks a document up.";
  parameters = obj end;
  side_effect = "read";
}

abbrev registry : ScopedActionRegistry
registry = ("docs.lookup", lookup) ∷ []

abbrev declared : RouterFunctionTool
declared = record { name = "docs.lookup"; description = none; parameters = obj end }

abbrev canonical : RouterFunctionTool
canonical = record {
  name = "docs.lookup";
  description = some "Looks a document up.";
  parameters = obj end;
}

abbrev call_message : RouterMessage
call_message = record {
  role = Role.assistant;
  content = none;
  images = none;
  tool_call_id = none;
  name = none;
  tool_result_status = none;
  tool_calls = some (record { id = "c1"; name = "docs.lookup"; arguments = "{}" } ∷ []);
}

abbrev result_message : RouterMessage
result_message = record {
  role = Role.tool;
  content = some "found";
  images = none;
  tool_call_id = some "c1";
  name = none;
  tool_result_status = none;
  tool_calls = none;
}

abbrev scoped_request : ToolAccessRequest
scoped_request = record {
  profile = chat;
  provider = command_code;
  provider_capability = some chat_and_tools;
  tools = declared ∷ [];
  tool_choice = none;
  parallel_tool_calls = none;
  messages = call_message ∷ result_message ∷ [];
  scoped_actions = some registry;
  granted_actions = some ("docs.lookup" ∷ []);
}

abbrev scoped_grant : EffectiveToolAccess
scoped_grant = record {
  mode = ToolAccessMode.scoped;
  tools = canonical ∷ [];
  allowed_tool_names = "docs.lookup" ∷ [];
  granted_actions = "docs.lookup" ∷ [];
}

abbrev agent_request : ToolAccessRequest
agent_request = record scoped_request {
  profile = agent;
  tool_choice = some (NormalizedToolChoice.named "docs.lookup");
}

abbrev agent_grant : EffectiveToolAccess
agent_grant = record {
  mode = ToolAccessMode.agent;
  tools = declared ∷ [];
  allowed_tool_names = "docs.lookup" ∷ [];
  granted_actions = [];
}

agent_is_allowed : resolve_tool_access agent_request ≡ allow agent_grant
unfolding resolve_tool_access agent_access to_set without inspect_tool_history scan_messages
    scan_message enforce_provider_tool_policy
agent_is_allowed = refl

agent_allowed_example :
    (agent_grant.mode ≡ ToolAccessMode.agent)
    × (agent_grant.tools ≡ agent_request.tools)
    × (agent_grant.granted_actions ≡ [])
    × ChoosesDeclared agent_request.tool_choice (names_of agent_request)
agent_allowed_example = agent_allowed agent_request agent_grant refl agent_is_allowed

abbrev plain_request : ToolAccessRequest
plain_request = record {
  profile = chat;
  provider = google;
  provider_capability = some chat_only;
  tools = [];
  tool_choice = none;
  parallel_tool_calls = none;
  messages = [];
  scoped_actions = some registry;
  granted_actions = none;
}

abbrev plain_grant : EffectiveToolAccess
plain_grant = record {
  mode = ToolAccessMode.none;
  tools = [];
  allowed_tool_names = [];
  granted_actions = [];
}

plain_is_allowed : resolve_tool_access plain_request ≡ allow plain_grant
unfolding resolve_tool_access chat_access to_set without inspect_tool_history scan_messages
    scan_message enforce_provider_tool_policy
plain_is_allowed = refl

incapable_allowed_example :
    (plain_request.tools ≡ [])
    × (plain_request.tool_choice ≡ none)
    × (plain_request.parallel_tool_calls ≡ none)
    × ((inspect_tool_history plain_request.messages).has_assistant_calls ≡ false)
    × ((inspect_tool_history plain_request.messages).has_tool_results ≡ false)
incapable_allowed_example = incapable_allowed plain_request plain_grant plain_is_allowed refl

abbrev exchange : List RouterMessage
exchange = call_message ∷ result_message ∷ []

inspect_tool_history_lem_example :
    ((inspect_tool_history exchange).has_tool_results ≡ any (λ m. is_tool m.role) exchange)
    × ((inspect_tool_history exchange).has_assistant_calls ≡ any carries_calls exchange)
    × ((inspect_tool_history exchange).correlated
        ≡ all (answers_if_tool (call_ids_of exchange)) exchange)
inspect_tool_history_lem_example = inspect_tool_history_lem exchange
