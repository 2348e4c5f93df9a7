-- ===== src/Http/Published.antt =====
-- src/core/protocol-capabilities.ts against the handlers in src/http: what is published of the request
-- controls is what the handlers do.
use Prim.Native.String.{String}
use cmm_routers.Prelude.{
  Bool, true, false, Option, none, some, List, [], ◌∷◌, ◌++◌, ◌≡◌, refl, arith, is_some, ap, subst,
  all, not, string_eq, ◌==◌, contains, All, Bool-cases, inl, inr, eq_of_==,
}
use cmm_routers.Prelude.OrderedMap.{get}
use cmm_routers.Core.Json.{Json, Fields, end, field, prop, keys}
use cmm_routers.Core.Errors.{ok}
use cmm_routers.Core.Profile.{ProviderCapability}
use cmm_routers.Core.Model.{ProviderId}
use cmm_routers.Core.RequestControls.{
  explicit_unsupported, request_control_truth, published, reject_unsupported_controls,
  reject_unsupported_controls_iff, openai_unsupported_semantic_controls,
  openai_chat_supported_controls, openai_responses_supported_controls,
  openai_responses_rejected_controls, anthropic_unsupported_semantic_controls,
  anthropic_supported_controls,
}
use cmm_routers.Core.Capabilities.{
  DownstreamProtocol, openai_chat, openai_responses, anthropic_messages, protocol_capabilities_for,
}
use cmm_routers.Http.Reply.{next}
use cmm_routers.Http.Admit.{ParsedBody}
use cmm_routers.Http.Chat.Handler
use cmm_routers.Http.Responses.Handler.{Draft, parse_draft}
use cmm_routers.Http.Anthropic.Request.{
  ParsedAnthropicRequest, parse_anthropic_request, accepted_request_keys,
}
use cmm_routers.Http.Anthropic.Admission.{parse_anthropic_request-keys}

-- the body passes the checks of the surface
abbrev pub Accepts : (Json → String) → (Option Json → String) → DownstreamProtocol → Fields → Type 0
Accepts json_stringify to_text openai_chat body =
    (b : ParsedBody) × (Handler.parse_body body ≡ next b)
Accepts json_stringify to_text openai_responses body = (d : Draft) × (parse_draft body ≡ next d)
Accepts json_stringify to_text anthropic_messages body =
    (p : ParsedAnthropicRequest) × (parse_anthropic_request json_stringify to_text body ≡ ok p)

chat_controls :
    (body : Fields) (b : ParsedBody)
    → Handler.parse_body body ≡ next b
    → reject_unsupported_controls body openai_unsupported_semantic_controls
        "The Chat Completions surface"
      ≡ none
unfolding Handler.parse_body
chat_controls body b h = ground arith

draft_controls :
    (body : Fields) (d : Draft)
    → parse_draft body ≡ next d
    → (reject_unsupported_controls body openai_unsupported_semantic_controls "The Responses surface"
        ≡ none)
      × (reject_unsupported_controls body openai_responses_rejected_controls "The Responses surface"
          ≡ none)
unfolding parse_draft
draft_controls body d h = ground arith

-- a body that has a control of a list is refused by it
listed :
    (supported_controls unsupported_controls : List String) (body : Fields)
    (surface control : String)
    → get (request_control_truth supported_controls unsupported_controls) control
      ≡ some explicit_unsupported
    → is_some (prop body control) ≡ true
    → reject_unsupported_controls body unsupported_controls surface ≡ none
    → ⊥
listed supported_controls unsupported_controls body surface control published there passed =
    let refused =
      (reject_unsupported_controls_iff supported_controls unsupported_controls body surface).1
        (control, published, there) in
    cc (ap is_some passed, refused)

reject-append :
    (body : Fields) (xs ys : List String) (surface : String)
    → reject_unsupported_controls body xs surface ≡ none
    → reject_unsupported_controls body ys surface ≡ none
    → reject_unsupported_controls body (xs ++ ys) surface ≡ none
unfolding reject_unsupported_controls
reject-append body [] ys surface hx hy = hy
reject-append body (x ∷ xs) ys surface hx hy = elim (Bool-cases (is_some (prop body x))) [
  | inl there ↦ absurd (ground (arith, there, hx))
  | inr absent ↦ rw absent (reject-append body xs ys surface (ground (arith, absent, hx)) hy)
]

accepted_of_key :
    (body : Fields) (key : String)
    → All (λ k. contains accepted_request_keys k ≡ true) (keys body)
    → is_some (prop body key) ≡ true
    → contains accepted_request_keys key ≡ true
accepted_of_key end key h there = cc
accepted_of_key (field k v fs) key h there = elim (Bool-cases (k == key)) [
  | inl same ↦ subst (λ k. contains accepted_request_keys k ≡ true) (eq_of_== k key same) h.0
  | inr other ↦ accepted_of_key fs key h.1 (ground (arith, other, there))
]

contains-all :
    (p : String → Bool) (xs : List String) (key : String)
    → all p xs ≡ true
    → contains xs key ≡ true
    → p key ≡ true
contains-all p [] key h k = cc
contains-all p (x ∷ xs) key h k = elim (Bool-cases (x == key)) [
  | inl same ↦ subst (λ s. p s ≡ true) (eq_of_== x key same) (ground (arith, h))
  | inr other ↦ contains-all p xs key (ground (arith, h)) (ground (arith, other, k))
]

accepted_not_refused :
    (key : String)
    → contains accepted_request_keys key ≡ true
    → contains anthropic_unsupported_semantic_controls key ≡ false
accepted_not_refused key h =
    let refused =
      contains-all (λ k. not (contains anthropic_unsupported_semantic_controls k))
        accepted_request_keys key refl h in
    ground (arith, refused)

-- A control that is published as unsupported on a surface, for any model and provider, is refused
-- there: a body that has it does not pass the checks of the surface's handler.
pub published_is_refused :
    (json_stringify : Json → String) (to_text : Option Json → String) (p : DownstreamProtocol)
    (capability : Option ProviderCapability) (provider : Option ProviderId) (body : Fields)
    (control : String)
    → get ((protocol_capabilities_for capability provider).protocols p).request_controls control
      ≡ some explicit_unsupported
    → is_some (prop body control) ≡ true
    → ¬ Accepts json_stringify to_text p body
unfolding protocol_capabilities_for
published_is_refused js ts openai_chat capability provider body control published there = λ (b, h).
    listed openai_chat_supported_controls openai_unsupported_semantic_controls body _ control
      published there (chat_controls body b h)
published_is_refused js ts openai_responses capability provider body control published there =
    λ (d, h).
      let (first, second) = draft_controls body d h in
      listed openai_responses_supported_controls
        (openai_unsupported_semantic_controls ++ openai_responses_rejected_controls) body _ control
        published there (reject-append body _ _ _ first second)
published_is_refused js ts anthropic_messages capability provider body control truth there =
    λ (p, h).
      let accepted =
        accepted_of_key body control (parse_anthropic_request-keys js ts body p h) there in
      let listed_there =
        (published anthropic_supported_controls anthropic_unsupported_semantic_controls control).0
          truth in
      cc (accepted_not_refused control accepted, listed_there)
