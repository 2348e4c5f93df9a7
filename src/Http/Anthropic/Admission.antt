-- ===== src/Http/Anthropic/Admission.antt =====
-- src/http/anthropic-messages.ts: what is known of a request that reaches a provider.
use Prim.Native.String.{String}
use cmm_routers.Prelude.{
  true, not, ◌&&◌, false, Bool, Option, none, some, List, [], ◌∷◌, ◌≡◌, arith, is_some, get_or_else,
  inl, inr, subst, sym, Option-cases, contains, string_eq, All, Bool-cases, ◌∙◌,
}
use cmm_routers.Core.Json.{
  Json, null, bool, num, decimal, str, arr, obj, nil, cons, Fields, keys, prop, as_record,
}
use cmm_routers.Core.Errors.{Result, ok, Result-cases}
use cmm_routers.Core.Profile.{RouterProfile, chat}
use cmm_routers.Core.Model.{ProviderId, DiscoveredModel, RouterRequest, RouterFunctionTool}
use cmm_routers.Core.ToolResultBound.{assert_tool_results_within_bound}
use cmm_routers.Core.ToolAccess.Types.{ToolAccessConfig}
use cmm_routers.Http.Reply.{next, Step-cases, filled_string}
use cmm_routers.Http.Admit.{ParsedBody}
use cmm_routers.Http.Admit.Checked.{
  IsServed, IsToolFree, serve-IsServed, admitted-IsToolFree, runs_without_tools,
}
use cmm_routers.Http.Chat.History.{is_empty_array}
use cmm_routers.Http.Anthropic.Errors.{answered}
use cmm_routers.Http.Anthropic.Request.{
  accepted_request_keys, check_keys, ParsedAnthropicRequest, parse_anthropic_request, parse_tools,
  parse_tool_list,
}
use cmm_routers.Http.Anthropic.Handler.{parse_body, prepare, invalid_body}

check_keys_accepts :
    (names : List String)
    → check_keys names ≡ ok tt
    → All (λ key. contains accepted_request_keys key ≡ true) names
unfolding check_keys
check_keys_accepts [] h = tt
check_keys_accepts (key ∷ rest) h = elim (Bool-cases (contains accepted_request_keys key)) [
  | inl accepted ↦ (accepted, check_keys_accepts rest (ground (arith, accepted, h)))
  | inr unknown ↦ absurd (ground (arith, unknown, h))
]

no_tools :
    (tools : Option Json) (ts : List RouterFunctionTool)
    → (is_some tools && not (is_empty_array tools)) ≡ false
    → parse_tools tools ≡ ok ts
    → ts ≡ []
unfolding parse_tools parse_tool_list
no_tools none ts e h = cc
no_tools (some (arr nil)) ts e h = cc
no_tools (some (arr (cons x xs))) ts e h = cc
no_tools (some null) ts e h = cc
no_tools (some (bool b)) ts e h = cc
no_tools (some (num n)) ts e h = cc
no_tools (some (decimal d)) ts e h = cc
no_tools (some (str s)) ts e h = cc
no_tools (some (obj fs)) ts e h = cc

module _ (json_stringify : Json → String) (to_text : Option Json → String) where
  -- What the checks of a body have established.
  pub record IsParsed (body : Fields) (b : ParsedBody) : Type 0 where
    pub parsed : ParsedAnthropicRequest
    pub model : filled_string (prop body "model") ≡ some b.model_id
    pub accepted : parse_anthropic_request json_stringify to_text body ≡ ok parsed
    pub messages : b.messages ≡ parsed.messages
    pub bounded : assert_tool_results_within_bound b.messages ≡ ok tt
    pub tools : b.tools ≡ parsed.tools
    pub choice : b.tool_choice ≡ parsed.tool_choice
    pub parallel : b.parallel_tool_calls ≡ parsed.parallel_tool_calls

  parse_body-IsParsed :
      (body : Fields) (b : ParsedBody)
      → parse_body json_stringify to_text body ≡ next b
      → IsParsed body b
  unfolding parse_body
  parse_body-IsParsed body b h =
      elim (Result-cases (parse_anthropic_request json_stringify to_text body)) [
        | inl (e, bad) ↦ absurd (ground (arith, h, bad))
        | inr (parsed, accepted) ↦ record {
          parsed = parsed;
          model = ground (arith, h, accepted);
          accepted = accepted;
          messages = ground (arith, h, accepted);
          bounded = ground (arith, h, accepted);
          tools = ground (arith, h, accepted);
          choice = ground (arith, h, accepted);
          parallel = ground (arith, h, accepted);
        }
      ]

  -- what a parsed body passed
  passed :
      (body : Fields) (parsed : ParsedAnthropicRequest)
      → parse_anthropic_request json_stringify to_text body ≡ ok parsed
      → (check_keys (keys body) ≡ ok tt) × (parse_tools (prop body "tools") ≡ ok parsed.tools)
  unfolding parse_anthropic_request
  passed body parsed h = ground arith

  -- No control of a body is accepted and then ignored: if a body is parsed, each of its keys is one
  -- that the surface implements.
  pub parse_anthropic_request-keys :
      (body : Fields) (parsed : ParsedAnthropicRequest)
      → parse_anthropic_request json_stringify to_text body ≡ ok parsed
      → All (λ key. contains accepted_request_keys key ≡ true) (keys body)
  parse_anthropic_request-keys body parsed h =
      check_keys_accepts (keys body) (passed body parsed h).0

  module _ (resolve : String → Result DiscoveredModel) (has_adapter : ProviderId → Bool) where
    -- What was decided before a provider is run with a request.
    pub record IsPrepared (profile : RouterProfile) (config : ToolAccessConfig) (id : String)
        (raw : Option Json) (request : RouterRequest) : Type 0 where
      pub body : Fields
      pub parsed : ParsedBody
      pub is_object : as_record raw ≡ some body
      pub of_body : IsParsed body parsed
      pub served : IsServed resolve has_adapter profile config id body parsed request

    -- A request on this surface reaches a provider only if its body passed every check, its model is
    -- resolved to a provider with an adapter, and the tools are allowed to the authenticated profile;
    -- it carries the parsed messages and exactly the allowed tools, under that profile.
    pub prepare-IsPrepared :
        (profile : RouterProfile) (config : ToolAccessConfig) (id : String) (raw : Option Json)
        (request : RouterRequest)
        → prepare json_stringify to_text resolve has_adapter profile config id raw ≡ next request
        → IsPrepared profile config id raw request
    unfolding prepare
    prepare-IsPrepared profile config id raw request h = elim (Option-cases (as_record raw)) [
      | inl missing ↦ absurd (ground (arith, missing, h))
      | inr (body, is_object) ↦ elim (Step-cases (parse_body json_stringify to_text body)) [
        | inl (e, bad) ↦ absurd (ground (arith, is_object, bad, h))
        | inr (b, parsed) ↦ record {
          body = body;
          parsed = b;
          is_object = is_object;
          of_body = parse_body-IsParsed body b parsed;
          served =
              serve-IsServed answered resolve has_adapter (invalid_body "Unknown provider") profile
                config id body b request (ground (arith, is_object, parsed, h));
        }
      ]
    ]

    -- A request of the profile CHAT on this surface reaches a provider of a server that grants no
    -- action only if its raw body carries nothing of tools: no declaration, no selection, no result
    -- and no call in the history; and it is run without tools.
    pub prepare_anthropic_chat :
        (config : ToolAccessConfig) (id : String) (raw : Option Json) (request : RouterRequest)
        → get_or_else config.granted_actions [] ≡ []
        → prepare json_stringify to_text resolve has_adapter chat config id raw ≡ next request
        → (body : Fields) × (as_record raw ≡ some body)
          × IsToolFree body request.messages
          × (request.tools ≡ [])
    prepare_anthropic_chat config id raw request no_grant h =
        let p = prepare-IsPrepared chat config id raw request h in
        let a = p.served.admitted in
        let free = admitted-IsToolFree config id p.body p.parsed request no_grant a in
        let nothing =
          p.of_body.tools
          ∙ no_tools (prop p.body "tools") p.of_body.parsed.tools free.declared
              (passed p.body p.of_body.parsed p.of_body.accepted).1 in
        (
          p.body,
          p.is_object,
          subst (λ (r : RouterRequest). IsToolFree p.body r.messages) (sym a.made) free,
          runs_without_tools config id p.body p.parsed request nothing a,
        )
