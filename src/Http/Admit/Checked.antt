-- ===== src/Http/Admit/Checked.antt =====
-- src/http/openai-chat.ts: what is known of a request that reaches a provider, on any surface.
use Prim.Native.String.{String}
use cmm_routers.Prelude.{
  Bool, true, false, not, ◌&&◌, none, some, List, [], ◌≡◌, refl, arith, any, is_some, get_or_else,
  inl, inr, ap, ◌∙◌,
}
use cmm_routers.Core.Json.{Fields, prop}
use cmm_routers.Core.Errors.{RouterError, Result, ok}
use cmm_routers.Core.Profile.{RouterProfile, chat, chat_only}
use cmm_routers.Core.Model.{ProviderId, DiscoveredModel, RouterRequest, RouterMessage}
use cmm_routers.Core.ToolAccess.Types.{ToolAccessConfig, EffectiveToolAccess, allow, Decision-cases}
use cmm_routers.Core.ToolAccess.Decision.{resolve_tool_access}
use cmm_routers.Core.ToolAccess.Grants.{chat_allowed}
use cmm_routers.Http.Reply.{HttpError, next, Step-cases}
use cmm_routers.Http.Chat.History.{
  reject_chat_only_tools, reject_chat_only_tools_iff, is_tool, is_empty_array,
  raw_body_has_assistant_tool_history,
}
use cmm_routers.Http.Admit.{
  ParsedBody, access_request, router_request, transport_capability, route, admit, serve,
}

-- What was decided of a request before a provider is run with it; `body` is what the guard saw.
pub record IsAdmitted (profile : RouterProfile) (config : ToolAccessConfig) (id : String)
    (body : Fields) (b : ParsedBody) (request : RouterRequest) : Type 0 where
  pub access : EffectiveToolAccess
  pub guarded :
      reject_chat_only_tools
        (some (transport_capability profile config request.model))
        body
        b.messages
      ≡ none
  pub decided : resolve_tool_access (access_request profile config request.model b) ≡ allow access
  pub made : request ≡ router_request id profile request.model b access

-- Nothing of tools: no declaration, no selection, no result and no call in the history.
pub record IsToolFree (body : Fields) (messages : List RouterMessage) : Type 0 where
  pub declared : (is_some (prop body "tools") && not (is_empty_array (prop body "tools"))) ≡ false
  pub choice : prop body "tool_choice" ≡ none
  pub parallel : prop body "parallel_tool_calls" ≡ none
  pub results : any (λ m. is_tool m.role) messages ≡ false
  pub history : raw_body_has_assistant_tool_history body ≡ false

-- A request that is served: its model is resolved to a provider with an adapter.
pub record IsServed (resolve : String → Result DiscoveredModel) (has_adapter : ProviderId → Bool)
    (profile : RouterProfile) (config : ToolAccessConfig) (id : String) (body : Fields)
    (b : ParsedBody) (request : RouterRequest) : Type 0 where
  pub resolved : resolve b.model_id ≡ ok request.model
  pub served : has_adapter request.model.provider ≡ true
  pub admitted : IsAdmitted profile config id body b request

module _ (answer : RouterError → HttpError) where
  pub route_lem :
      (resolve : String → Result DiscoveredModel) (has_adapter : ProviderId → Bool)
      (unknown_provider : HttpError) (id : String) (model : DiscoveredModel)
      → route answer resolve has_adapter unknown_provider id ≡ next model
      → (resolve id ≡ ok model) × (has_adapter model.provider ≡ true)
  unfolding route
  route_lem resolve has_adapter unknown_provider id model h =
      let found : resolve id ≡ ok model = ground arith in (found, ground (arith, found, h))

  pub admit-IsAdmitted :
      (profile : RouterProfile) (config : ToolAccessConfig) (id : String) (body : Fields)
      (b : ParsedBody) (model : DiscoveredModel) (request : RouterRequest)
      → admit answer profile config id body b model ≡ next request
      → IsAdmitted profile config id body b request
  unfolding admit
  admit-IsAdmitted profile config id body b model request h =
      let same : request.model ≡ model = ground arith in
      elim (Decision-cases (resolve_tool_access (access_request profile config model b))) [
        | inl (e, denied) ↦ absurd (ground (arith, h, denied))
        | inr (access, allowed) ↦ record {
          access = access;
          guarded = ground (arith, h, same);
          decided = rw same allowed;
          made = ground (arith, h, allowed);
        }
      ]

  pub model_of :
      (profile : RouterProfile) (config : ToolAccessConfig) (id : String) (body : Fields)
      (b : ParsedBody) (model : DiscoveredModel) (request : RouterRequest)
      → admit answer profile config id body b model ≡ next request
      → request.model ≡ model
  unfolding admit
  model_of profile config id body b model request h = ground arith

  pub serve-IsServed :
      (resolve : String → Result DiscoveredModel) (has_adapter : ProviderId → Bool)
      (unknown_provider : HttpError) (profile : RouterProfile) (config : ToolAccessConfig)
      (id : String) (body : Fields) (b : ParsedBody) (request : RouterRequest)
      → serve answer resolve has_adapter unknown_provider profile config id body b ≡ next request
      → IsServed resolve has_adapter profile config id body b request
  unfolding serve
  serve-IsServed resolve has_adapter unknown_provider profile config id body b request h =
      elim (Step-cases (route answer resolve has_adapter unknown_provider b.model_id)) [
        | inl (e, bad) ↦ absurd (ground (arith, bad, h))
        | inr (model, routed) ↦
            let rest : admit answer profile config id body b model ≡ next request =
              ground (arith, routed, h) in
            let (resolved, served) =
              route_lem resolve has_adapter unknown_provider b.model_id model routed in
            let same = model_of profile config id body b model request rest in
            record {
              resolved = cc;
              served = cc;
              admitted = admit-IsAdmitted profile config id body b model request rest;
            }
      ]

chat_guard :
    (config : ToolAccessConfig) (request : RouterRequest) (body : Fields)
    (messages : List RouterMessage)
    → get_or_else config.granted_actions [] ≡ []
    → reject_chat_only_tools (some (transport_capability chat config request.model)) body messages
      ≡ none
    → reject_chat_only_tools (some chat_only) body messages ≡ none
unfolding transport_capability
chat_guard config request body messages no_grant h = ground (arith, h, no_grant)

pub admitted-IsToolFree :
    (config : ToolAccessConfig) (id : String) (body : Fields) (b : ParsedBody)
    (request : RouterRequest)
    → get_or_else config.granted_actions [] ≡ []
    → IsAdmitted chat config id body b request
    → IsToolFree body b.messages
admitted-IsToolFree config id body b request no_grant a =
    let (declared, choice, parallel, results, history) =
      (reject_chat_only_tools_iff body b.messages).0
        (chat_guard config request body b.messages no_grant a.guarded) in
    record {
      declared = declared;
      choice = choice;
      parallel = parallel;
      results = results;
      history = history;
    }

pub runs_without_tools :
    (config : ToolAccessConfig) (id : String) (body : Fields) (b : ParsedBody)
    (request : RouterRequest)
    → b.tools ≡ []
    → IsAdmitted chat config id body b request
    → request.tools ≡ []
runs_without_tools config id body b request nothing a =
    ap (λ (r : RouterRequest). r.tools) a.made
    ∙ elim (chat_allowed (access_request chat config request.model b) a.access refl a.decided) [
      | inl plain ↦ plain.no_tools
      | inr scoped ↦ absurd (ground (arith, nothing, scoped.with_tools))
    ]
