-- ===== src/Http/Responses/Admission.antt =====
-- src/http/openai-responses.ts: what is known of a request that reaches a provider.
use Prim.Native.String.{String}
use cmm_routers.Prelude.{
  true, not, ◌&&◌, false, Bool, Option, some, List, [], ◌∷◌, ◌≡◌, refl, arith, is_some, any,
  get_or_else, inl, inr, subst, sym, ap, ◌∙◌, Option-cases, string_eq, ==_refl, Bool-cases, ◌==◌,
}
use cmm_routers.Core.Json.{Json, arr, Fields, end, field, prop, as_record}
use cmm_routers.Core.Errors.{Result, ok}
use cmm_routers.Core.Profile.{RouterProfile, chat}
use cmm_routers.Core.Model.{
  ProviderId, DiscoveredModel, RouterRequest, RouterFunctionTool, RouterMessage,
}
use cmm_routers.Core.ToolResultBound.{assert_tool_results_within_bound}
use cmm_routers.Core.ToolAccess.Types.{ToolAccessConfig}
use cmm_routers.Http.Reply.{http_error, mapped, next, Step-cases}
use cmm_routers.Http.Admit.{transport_capability, route, admit}
use cmm_routers.Http.Admit.Checked.{
  IsAdmitted, IsToolFree, route_lem, model_of, admit-IsAdmitted, admitted-IsToolFree,
  runs_without_tools,
}
use cmm_routers.Http.Chat.History.{is_empty_array}
use cmm_routers.Http.Responses.Input.{input_to_messages}
use cmm_routers.Http.Responses.Hidden.{hides_tools, input_items, drafted_free}
use cmm_routers.Http.Responses.Handler.{
  Draft, parse_draft, capability_body, set_field, function_items, with_instructions, body_with,
  parse_conversation, prepare,
}

prop-set_field : (fs : Fields) (key : String) (v : Json) → prop (set_field fs key v) key ≡ some v
prop-set_field end key v = rw (==_refl key) refl
prop-set_field (field k w fs) key v = elim (Bool-cases (k == key)) [
  | inl same ↦ rw same (rw (==_refl key) refl)
  | inr other ↦ rw other (rw other (prop-set_field fs key v))
]

-- a guarded body that declares nothing has no tool from any place
hides_nothing :
    (body : Fields) (tools : List RouterFunctionTool)
    → let declared = prop (capability_body body tools) "tools" in
      (is_some declared && not (is_empty_array declared)) ≡ false → tools ≡ []
unfolding capability_body
hides_nothing body [] h = refl
hides_nothing body (t ∷ ts) h =
    absurd (ground (arith, h, prop-set_field body "tools" (arr (function_items (t ∷ ts)))))

whole : (body : Fields) → capability_body body [] ≡ body
unfolding capability_body
whole body = refl

conversation_of :
    (profile : RouterProfile) (config : ToolAccessConfig) (model : DiscoveredModel) (body : Fields)
    (d : Draft) (messages : List RouterMessage)
    → parse_conversation (transport_capability profile config model) body d ≡ next messages
    → (given : List RouterMessage) × (input_to_messages d.input ≡ some given)
      × (messages ≡ with_instructions d.instructions given)
      × (assert_tool_results_within_bound messages ≡ ok tt)
unfolding parse_conversation
conversation_of profile config model body d messages h =
    elim (Option-cases (input_to_messages d.input)) [
      | inl missing ↦ absurd (ground (arith, missing, h))
      | inr (given, found) ↦
          let same : messages ≡ with_instructions d.instructions given = ground (arith, found, h) in
          (given, found, same, ground (arith, found, h, same))
    ]

module _ (resolve : String → Result DiscoveredModel) (has_adapter : ProviderId → Bool) where
  -- What was decided before a provider is run with a request.
  pub record IsPrepared (profile : RouterProfile) (config : ToolAccessConfig) (id : String)
      (raw : Option Json) (request : RouterRequest) : Type 0 where
    pub body : Fields
    pub draft : Draft
    pub given : List RouterMessage
    pub is_object : as_record raw ≡ some body
    pub drafted : parse_draft body ≡ next draft
    pub converted : input_to_messages draft.input ≡ some given
    pub messages : request.messages ≡ with_instructions draft.instructions given
    pub bounded : assert_tool_results_within_bound request.messages ≡ ok tt
    pub resolved : resolve draft.model_id ≡ ok request.model
    pub served : has_adapter request.model.provider ≡ true
    pub admitted :
        IsAdmitted profile config id
          (capability_body body draft.tools)
          (body_with body draft request.messages)
          request

  prepared :
      (profile : RouterProfile) (config : ToolAccessConfig) (id : String) (raw : Option Json)
      (body : Fields) (d : Draft) (model : DiscoveredModel) (messages : List RouterMessage)
      (request : RouterRequest)
      → as_record raw ≡ some body
      → parse_draft body ≡ next d
      → route mapped resolve has_adapter
          (http_error 400 "unknown_provider" "Unknown provider")
          d.model_id
        ≡ next model
      → parse_conversation (transport_capability profile config model) body d ≡ next messages
      → admit mapped profile config id
          (capability_body body d.tools)
          (body_with body d messages)
          model
        ≡ next request
      → IsPrepared profile config id raw request
  prepared profile config id raw body d model messages request is_object drafted routed spoken h =
      let a = admit-IsAdmitted mapped profile config id _ _ model request h in
      let (resolved, served) = route_lem mapped resolve has_adapter _ d.model_id model routed in
      let same = model_of mapped profile config id _ _ model request h in
      let (given, converted, said, bounded) =
        conversation_of profile config model body d messages spoken in
      let carried : request.messages ≡ messages = ap (λ (r : RouterRequest). r.messages) a.made in
      record {
        body = body;
        draft = d;
        given = given;
        is_object = is_object;
        drafted = drafted;
        converted = converted;
        messages = carried ∙ said;
        bounded = subst (λ ms. assert_tool_results_within_bound ms ≡ ok tt) (sym carried) bounded;
        resolved = cc;
        served = cc;
        admitted =
            subst
              (λ ms.
                IsAdmitted profile config id (capability_body body d.tools) (body_with body d ms)
                  request)
              (sym carried) a;
      }

  after_draft :
      (profile : RouterProfile) (config : ToolAccessConfig) (id : String) (raw : Option Json)
      (body : Fields) (d : Draft) (request : RouterRequest)
      → as_record raw ≡ some body
      → parse_draft body ≡ next d
      → prepare resolve has_adapter profile config id raw ≡ next request
      → IsPrepared profile config id raw request
  unfolding prepare
  after_draft profile config id raw body d request is_object drafted h =
      elim (Step-cases (
        route mapped resolve has_adapter (http_error 400 "unknown_provider" "Unknown provider")
          d.model_id)) [
            | inl (e, bad) ↦ absurd (ground (arith, is_object, drafted, bad, h))
            | inr (model, routed) ↦
                elim (Step-cases
                  (parse_conversation (transport_capability profile config model) body d)) [
                    | inl (e, bad) ↦ absurd (ground (arith, is_object, drafted, routed, bad, h))
                    | inr (messages, spoken) ↦
                        prepared profile config id raw body d model messages request is_object
                          drafted routed spoken
                          (ground (arith, is_object, drafted, routed, spoken, h))
                  ]
          ]

  -- A request on this surface reaches a provider only if its body passed every check, its model is
  -- resolved to a provider with an adapter, and the tools are allowed to the authenticated profile;
  -- it carries the instructions and then the parsed input, within the bound on results.
  pub prepare-IsPrepared :
      (profile : RouterProfile) (config : ToolAccessConfig) (id : String) (raw : Option Json)
      (request : RouterRequest)
      → prepare resolve has_adapter profile config id raw ≡ next request
      → IsPrepared profile config id raw request
  unfolding prepare
  prepare-IsPrepared profile config id raw request h = elim (Option-cases (as_record raw)) [
    | inl missing ↦ absurd (ground (arith, missing, h))
    | inr (body, is_object) ↦ elim (Step-cases (parse_draft body)) [
      | inl (e, bad) ↦ absurd (ground (arith, is_object, bad, h))
      | inr (d, drafted) ↦ after_draft profile config id raw body d request is_object drafted h
    ]
  ]

  -- A request of the profile CHAT on this surface reaches a provider of a server that grants no
  -- action only if no tool is declared in its raw body, neither at the top nor by an item of the
  -- type `additional_tools` in its input, none is selected, answered or in the history; and it is
  -- run without tools.
  pub prepare_responses_chat :
      (config : ToolAccessConfig) (id : String) (raw : Option Json) (request : RouterRequest)
      → get_or_else config.granted_actions [] ≡ []
      → prepare resolve has_adapter chat config id raw ≡ next request
      → (body : Fields) × (d : Draft) × (as_record raw ≡ some body)
        × (parse_draft body ≡ next d)
        × (d.tools ≡ [])
        × (any hides_tools (input_items (prop body "input")) ≡ false)
        × IsToolFree body request.messages
        × (request.tools ≡ [])
  prepare_responses_chat config id raw request no_grant h =
      let p = prepare-IsPrepared chat config id raw request h in
      let free = admitted-IsToolFree config id _ _ request no_grant p.admitted in
      let nothing = hides_nothing p.body p.draft.tools free.declared in
      (
        p.body,
        p.draft,
        p.is_object,
        p.drafted,
        nothing,
        drafted_free p.body p.draft p.drafted nothing,
        subst (λ (b : Fields). IsToolFree b request.messages)
            (ap (capability_body p.body) nothing ∙ whole p.body) free,
        runs_without_tools config id _ _ request nothing p.admitted,
      )
