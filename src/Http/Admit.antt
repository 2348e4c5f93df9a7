-- ===== src/Http/Admit.antt =====
-- src/http/openai-chat.ts: the part of a handler that the surfaces share, from the parsed body to the
-- request that the provider is run with. The registry is a parameter: what it resolves a model to,
-- and whether a provider has an adapter.
pub mod Checked
use Prim.Native.String.{String}
use cmm_routers.Prelude.{
  Bool, true, false, not, ◌&&◌, ◌||◌, Option, some, List, [], get_or_else, if◌then◌else◌,
}
use cmm_routers.Core.Json.{Json, Fields}
use cmm_routers.Core.Errors.{RouterError, Result}
use cmm_routers.Core.Profile.{
  RouterProfile, agent, ProviderCapability, chat_only, chat_and_tools, carries_tools,
}
use cmm_routers.Core.Model.{
  ProviderId, DiscoveredModel, RouterMessage, RouterFunctionTool, RouterRequest, ReasoningEffort,
  NormalizedToolChoice,
}
use cmm_routers.Core.ToolAccess.Types.{ToolAccessConfig, ToolAccessRequest, EffectiveToolAccess}
use cmm_routers.Core.ToolAccess.History.{is_nil}
use cmm_routers.Core.ToolAccess.Decision.{resolve_tool_access}
use cmm_routers.Http.Reply.{
  HttpError, Step, send, next, ◌>>=◌, ◌>>◌, or_mapped, unless_error, guard, allowed,
}
use cmm_routers.Http.Chat.History.{reject_chat_only_tools}

abbrev is_agent : RouterProfile → Bool
is_agent agent = true
is_agent _ = false

-- AGENT, or a CHAT session that some action is granted to
abbrev pub carries_scoped_grant : RouterProfile → ToolAccessConfig → Bool
carries_scoped_grant profile config =
    is_agent profile || not (is_nil (get_or_else config.granted_actions []))

-- the capability that the guard on the raw body is given
unfoldable pub transport_capability :
    RouterProfile → ToolAccessConfig → DiscoveredModel → ProviderCapability
transport_capability profile config model =
    if carries_tools model.capability && carries_scoped_grant profile config
    then chat_and_tools
    else chat_only

-- What a body says, once all of it is parsed.
pub record ParsedBody : Type 0 where
  pub model_id : String
  pub messages : List RouterMessage
  pub tools : List RouterFunctionTool
  pub stream : Bool
  pub max_output_tokens : Option Json
  pub parallel_tool_calls : Option Bool
  pub tool_choice : Option NormalizedToolChoice
  pub reasoning_effort : Option ReasoningEffort

-- the request that the access decision is made on
abbrev pub access_request :
    RouterProfile → ToolAccessConfig → DiscoveredModel → ParsedBody → ToolAccessRequest
access_request profile config model b = record {
  profile = profile;
  provider = model.provider;
  provider_capability = model.capability;
  tools = b.tools;
  tool_choice = b.tool_choice;
  parallel_tool_calls = b.parallel_tool_calls;
  messages = b.messages;
  scoped_actions = config.scoped_actions;
  granted_actions = config.granted_actions;
}

abbrev pub router_request :
    String → RouterProfile → DiscoveredModel → ParsedBody → EffectiveToolAccess → RouterRequest
router_request request_id profile model b access = record {
  request_id = request_id;
  profile = some profile;
  model = model;
  messages = b.messages;
  tools = access.tools;
  stream = b.stream;
  max_output_tokens = b.max_output_tokens;
  reasoning_effort = b.reasoning_effort;
  tool_choice = b.tool_choice;
  parallel_tool_calls = b.parallel_tool_calls;
}

module _ (answer : RouterError → HttpError) where
  -- the model and its provider, which must have an adapter
  unfoldable pub route :
      (String → Result DiscoveredModel)
      → (ProviderId → Bool)
      → (unknown_provider : HttpError) → String
      → Step DiscoveredModel
  route resolve has_adapter unknown_provider model_id = do
    model ← or_mapped answer (resolve model_id)
    guard (has_adapter model.provider) unknown_provider
    next model

  -- the guard on the raw body `body`, the decision on the tools, and the request
  unfoldable pub admit :
      RouterProfile
      → ToolAccessConfig
      → (request_id : String) → Fields
      → ParsedBody
      → DiscoveredModel
      → Step RouterRequest
  unfolding transport_capability
  admit profile config request_id body b model = do
    unless_error answer
        (reject_chat_only_tools (some (transport_capability profile config model)) body b.messages)
    access ← allowed answer (resolve_tool_access (access_request profile config model b))
    next (router_request request_id profile model b access)

  -- both, one after the other
  unfoldable pub serve :
      (String → Result DiscoveredModel)
      → (ProviderId → Bool)
      → (unknown_provider : HttpError) → RouterProfile
      → ToolAccessConfig
      → (request_id : String) → Fields
      → ParsedBody
      → Step RouterRequest
  unfolding route admit
  serve resolve has_adapter unknown_provider profile config request_id body b = do
    model ← route resolve has_adapter unknown_provider b.model_id
    admit profile config request_id body b model
