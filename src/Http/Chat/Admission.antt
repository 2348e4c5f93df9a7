-- ===== src/Http/Chat/Admission.antt =====
-- src/http/openai-chat.ts: what is known of a chat request that reaches a provider.
use Prim.Native.String.{String}
use cmm_routers.Prelude.{
  not, ◌&&◌, true, false, Bool, Option, none, some, [], ◌≡◌, arith, is_some, ap, ◌∙◌, get_or_else,
  inl, inr, subst, sym, List, Option-cases,
}
use cmm_routers.Core.Json.{
  Json, null, bool, num, decimal, str, arr, obj, nil, cons, Fields, prop, as_record, as_bool,
  as_number, is_bool,
}
use cmm_routers.Core.Errors.{Result, ok}
use cmm_routers.Core.Profile.{RouterProfile, chat}
use cmm_routers.Core.Model.{ProviderId, DiscoveredModel, RouterRequest, RouterFunctionTool}
use cmm_routers.Core.RequestControls.{
  openai_unsupported_semantic_controls, reject_unsupported_controls,
}
use cmm_routers.Core.ToolResultBound.{assert_tool_results_within_bound}
use cmm_routers.Core.ToolPolicy.{parse_chat_tool_choice}
use cmm_routers.Core.ToolAccess.Types.{ToolAccessConfig}
use cmm_routers.Http.Reply.{
  HttpError, http_error, mapped, next, Step-cases, filled_string, optional_bool, optional,
}
use cmm_routers.Http.Admit.{ParsedBody}
use cmm_routers.Http.Admit.Checked.{
  IsToolFree, IsServed, serve-IsServed, admitted-IsToolFree, runs_without_tools,
}
use cmm_routers.Http.Chat.Messages.{parse_messages, parse_reasoning_effort}
use cmm_routers.Http.Chat.Tools.{parse_tools, parse_tool_entries}
use cmm_routers.Http.Chat.History.{is_empty_array}
use cmm_routers.Http.Chat.Handler.{parse_body, prepare, bad_request}

-- What the checks of a body have established.
pub record IsParsed (body : Fields) (b : ParsedBody) : Type 0 where
  pub controls :
      reject_unsupported_controls body openai_unsupported_semantic_controls
        "The Chat Completions surface"
      ≡ none
  pub model : filled_string (prop body "model") ≡ some b.model_id
  pub messages : parse_messages (prop body "messages") ≡ some b.messages
  pub bounded : assert_tool_results_within_bound b.messages ≡ ok tt
  pub tools : parse_tools (prop body "tools") ≡ ok b.tools
  pub streamed :
      optional_bool (prop body "stream") (bad_request "stream must be a boolean")
      ≡ next (as_bool (prop body "stream"))
  pub stream : b.stream ≡ is_bool (prop body "stream") true
  pub bound : b.max_output_tokens ≡ as_number (prop body "max_tokens")
  pub parallel :
      optional_bool
        (prop body "parallel_tool_calls")
        (bad_request "parallel_tool_calls must be a boolean")
      ≡ next b.parallel_tool_calls
  pub choice :
      optional mapped (parse_chat_tool_choice (prop body "tool_choice")) ≡ next b.tool_choice
  pub effort :
      optional mapped (parse_reasoning_effort (prop body "reasoning_effort"))
      ≡ next b.reasoning_effort

stream_passed :
    (v : Option Json) (e : HttpError) (r : Option Bool) → optional_bool v e ≡ next r → r ≡ as_bool v
unfolding optional_bool
stream_passed none e r h = cc
stream_passed (some v) e r h = ground arith

parse_body-IsParsed : (body : Fields) (b : ParsedBody) → parse_body body ≡ next b → IsParsed body b
unfolding parse_body
parse_body-IsParsed body b h = record {
  controls = ground arith;
  model = ground arith;
  messages = ground arith;
  bounded = ground arith;
  tools = ground arith;
  streamed =
      elim (Step-cases
        (optional_bool (prop body "stream") (bad_request "stream must be a boolean"))) [
          | inl (e, bad) ↦ absurd (ground (arith, bad, h))
          | inr (r, found) ↦ found ∙ ap next (stream_passed (prop body "stream") _ r found)
        ];
  stream = ground arith;
  bound = ground arith;
  parallel = ground arith;
  choice = ground arith;
  effort = ground arith;
}

no_tools :
    (tools : Option Json) (ts : List RouterFunctionTool)
    → (is_some tools && not (is_empty_array tools)) ≡ false
    → parse_tools tools ≡ ok ts
    → ts ≡ []
unfolding parse_tools parse_tool_entries
no_tools none ts e h = cc
no_tools (some (arr nil)) ts e h = cc
no_tools (some (arr (cons x xs))) ts e h = cc
no_tools (some null) ts e h = cc
no_tools (some (bool b)) ts e h = cc
no_tools (some (num n)) ts e h = cc
no_tools (some (decimal d)) ts e h = cc
no_tools (some (str s)) ts e h = cc
no_tools (some (obj fs)) ts e h = cc

module _ (resolve : String → Result DiscoveredModel) (has_adapter : ProviderId → Bool) where
  -- What was decided before a provider is run with a request.
  pub record IsPrepared (profile : RouterProfile) (config : ToolAccessConfig) (id : String)
      (raw : Option Json) (request : RouterRequest) : Type 0 where
    pub body : Fields
    pub parsed : ParsedBody
    pub is_object : as_record raw ≡ some body
    pub of_body : IsParsed body parsed
    pub served : IsServed resolve has_adapter profile config id body parsed request

  pub prepare-IsPrepared :
      (profile : RouterProfile) (config : ToolAccessConfig) (id : String) (raw : Option Json)
      (request : RouterRequest)
      → prepare resolve has_adapter profile config id raw ≡ next request
      → IsPrepared profile config id raw request
  unfolding prepare
  prepare-IsPrepared profile config id raw request h = elim (Option-cases (as_record raw)) [
    | inl missing ↦ absurd (ground (arith, missing, h))
    | inr (body, is_object) ↦ elim (Step-cases (parse_body body)) [
      | inl (e, bad) ↦ absurd (ground (arith, is_object, bad, h))
      | inr (b, parsed) ↦ record {
        body = body;
        parsed = b;
        is_object = is_object;
        of_body = parse_body-IsParsed body b parsed;
        served =
            serve-IsServed mapped resolve has_adapter
              (http_error 400 "unknown_provider" "Unknown provider") profile config id body b
              request (ground (arith, is_object, parsed, h));
      }
    ]
  ]

  -- A chat request under the profile CHAT reaches a provider of a server that grants no action only
  -- if its raw body carries nothing of tools: no declaration, no selection, no result and no call in
  -- the history; and it is run without tools.
  pub prepare_chat :
      (config : ToolAccessConfig) (id : String) (raw : Option Json) (request : RouterRequest)
      → get_or_else config.granted_actions [] ≡ []
      → prepare resolve has_adapter chat config id raw ≡ next request
      → (body : Fields) × (as_record raw ≡ some body)
        × IsToolFree body request.messages
        × (request.tools ≡ [])
  prepare_chat config id raw request no_grant h =
      let p = prepare-IsPrepared chat config id raw request h in
      let free = admitted-IsToolFree config id p.body p.parsed request no_grant p.served.admitted in
      let nothing = no_tools (prop p.body "tools") p.parsed.tools free.declared p.of_body.tools in
      (
        p.body,
        p.is_object,
        subst (λ (r : RouterRequest). IsToolFree p.body r.messages) (sym p.served.admitted.made)
            free,
        runs_without_tools config id p.body p.parsed request nothing p.served.admitted,
      )
