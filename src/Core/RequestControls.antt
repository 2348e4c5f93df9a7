-- ===== src/Core/RequestControls.antt =====
-- src/core/request-controls.ts: the controls that a surface refuses, and what is published of them.
use Prim.Native.String.{String}
use cmm_routers.Prelude.{
  true, false, Option, none, some, List, [], ◌∷◌, string_eq, ◌==◌, if◌then◌else◌, ◌≡◌, refl, ap,
  arith, is_some, contains, Bool-cases, inl, inr, eq_of_==, ==_refl, ◌↔◌,
}
use cmm_routers.Prelude.OrderedMap.{OrderedMap, get, put, get-put}
use cmm_routers.Core.Json.{Fields, prop}
use cmm_routers.Core.Errors.{RouterError, router_error, unsupported_capability, template}

abbrev pub openai_unsupported_semantic_controls : List String
openai_unsupported_semantic_controls =
    "temperature" ∷ "top_p" ∷ "top_k" ∷ "stop" ∷ "stop_sequences" ∷ "presence_penalty"
    ∷ "frequency_penalty" ∷ "logit_bias" ∷ "n" ∷ "seed" ∷ "logprobs" ∷ "top_logprobs" ∷ []

abbrev pub openai_chat_supported_controls : List String
openai_chat_supported_controls = "max_tokens" ∷ []

abbrev pub openai_responses_supported_controls : List String
openai_responses_supported_controls = "max_output_tokens" ∷ []

abbrev pub openai_responses_rejected_controls : List String
openai_responses_rejected_controls = "max_tokens" ∷ []

abbrev pub anthropic_supported_controls : List String
anthropic_supported_controls = "max_tokens" ∷ []

abbrev pub anthropic_unsupported_semantic_controls : List String
anthropic_unsupported_semantic_controls =
    "temperature" ∷ "top_p" ∷ "top_k" ∷ "stop_sequences" ∷ "metadata" ∷ "thinking" ∷ "service_tier"
    ∷ "container" ∷ "mcp_servers" ∷ []

pub data RequestControlState : Type 0 where
  supported explicit_unsupported : RequestControlState

-- one of the two loops that fill the published record
unfoldable pub set_all :
    RequestControlState
    → List String
    → OrderedMap String RequestControlState
    → OrderedMap String RequestControlState
set_all state [] truth = truth
set_all state (control ∷ controls) truth = set_all state controls (put truth control state)

unfoldable pub request_control_truth :
    (supported_controls unsupported_controls : List String) → OrderedMap String RequestControlState
unfolding set_all
request_control_truth supported_controls unsupported_controls =
    set_all explicit_unsupported unsupported_controls (set_all supported supported_controls [])

abbrev hint_suffix : Option String → List String
hint_suffix none = []
hint_suffix (some hint) = "; " ∷ hint ∷ []

unfoldable pub unsupported_request_control_error : String → String → Option String → RouterError
unfolding template
unsupported_request_control_error control surface hint = router_error unsupported_capability (
    template (
      surface
      ∷ " does not accept '"
      ∷ control
      ∷ "'; refusing to ignore it silently"
      ∷ hint_suffix hint))

unfoldable pub reject_unsupported_controls : Fields → List String → String → Option RouterError
unfolding unsupported_request_control_error
reject_unsupported_controls body [] surface = none
reject_unsupported_controls body (control ∷ controls) surface =
    let rest = reject_unsupported_controls body controls surface in
    if is_some (prop body control)
    then some (unsupported_request_control_error control surface none)
    else rest

set_all-get :
    (state : RequestControlState) (controls : List String)
    (truth : OrderedMap String RequestControlState) (control : String)
    → get (set_all state controls truth) control
      ≡ (if contains controls control then some state else get truth control)
unfolding set_all
set_all-get state [] truth control = refl
set_all-get state (c ∷ cs) truth control =
    ground (arith, set_all-get state cs (put truth c state) control, get-put truth c control state)

-- a control that is present is not the first one, which is absent
later :
    (c : String) (cs : List String) (control : String) (body : Fields)
    → contains (c ∷ cs) control ≡ true
    → is_some (prop body control) ≡ true
    → is_some (prop body c) ≡ false
    → contains cs control ≡ true
later c cs control body listed present absent = elim (Bool-cases (c == control)) [
  | inl same ↦
      let e : c ≡ control = eq_of_== c control same in
      cc (ap (λ k. is_some (prop body k)) e, present, absent)
  | inr other ↦ ground (arith, other, listed)
]

rejects :
    (body : Fields) (controls : List String) (surface control : String)
    → contains controls control ≡ true
    → is_some (prop body control) ≡ true
    → is_some (reject_unsupported_controls body controls surface) ≡ true
unfolding reject_unsupported_controls
rejects body [] surface control listed present = cc
rejects body (c ∷ cs) surface control listed present = elim (Bool-cases (is_some (prop body c))) [
  | inl here ↦ rw here refl
  | inr absent ↦
      rw absent
        (rejects body cs surface control (later c cs control body listed present absent) present)
]

found_control :
    (body : Fields) (controls : List String) (surface : String)
    → is_some (reject_unsupported_controls body controls surface) ≡ true
    → (control : String) × (contains controls control ≡ true) × (is_some (prop body control) ≡ true)
unfolding reject_unsupported_controls
found_control body [] surface h = cc
found_control body (c ∷ cs) surface h = elim (Bool-cases (is_some (prop body c))) [
  | inl here ↦ (c, ground (arith, ==_refl c), here)
  | inr absent ↦
      let (control, listed, present) = found_control body cs surface (ground (arith, absent, h)) in
      (control, ground (arith, listed), present)
]

pub published :
    (supported_controls unsupported_controls : List String) (control : String)
    → (get (request_control_truth supported_controls unsupported_controls) control
        ≡ some explicit_unsupported)
      ↔ (contains unsupported_controls control ≡ true)
unfolding request_control_truth get
published supported_controls unsupported_controls control = ground (
  arith,
  set_all-get explicit_unsupported unsupported_controls (set_all supported supported_controls [])
      control,
  set_all-get supported supported_controls [] control,
)

-- What is published of the controls is what a surface does: a body is refused exactly when it has
-- one of the controls that the published record calls explicitly unsupported.
pub reject_unsupported_controls_iff :
    (supported_controls unsupported_controls : List String) (body : Fields) (surface : String)
    → (is_some (reject_unsupported_controls body unsupported_controls surface) ≡ true) ↔ (
        (control : String) × (get
            (request_control_truth supported_controls unsupported_controls)
            control
          ≡ some explicit_unsupported)
        × (is_some (prop body control) ≡ true))
reject_unsupported_controls_iff supported_controls unsupported_controls body surface = (
  λ h.
      let (control, listed, present) = found_control body unsupported_controls surface h in
      (control, (published supported_controls unsupported_controls control).1 listed, present),
  λ (control, truth, present).
      rejects body unsupported_controls surface control
        ((published supported_controls unsupported_controls control).0 truth) present,
)
