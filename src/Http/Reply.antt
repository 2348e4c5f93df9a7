-- ===== src/Http/Reply.antt =====
-- src/http/openai-chat.ts: `mapRouterErrorToHttp`, and the steps of a handler, each of which may
-- send an error instead of going on.
use cmm_routers.Prelude.{
  ℕ, String, Bool, Option, none, some, ◌≡◌, refl, ◌==◌, string_eq, if◌then◌else◌, true, false, ◌⊎◌,
  inl, inr,
}
use cmm_routers.Core.Json.{Json, as_string, as_bool}
use cmm_routers.Core.Errors.{
  RouterError, RouterErrorCode, Result, ok, err, code_text, invalid_request, unknown_provider,
  unknown_model, unsupported_capability, provider_unavailable, provider_auth_required,
  provider_permission_denied, provider_quota_exhausted, provider_rate_limited, provider_timeout,
  provider_protocol_error, router_unauthorized, router_misconfigured, router_internal_error,
}
use cmm_routers.Core.ToolAccess.Types.{ToolAccessDecision, allow, deny, EffectiveToolAccess}
use cmm_routers.Core.RouterEvent.{Thrown, router, other}

pub record HttpError : Type 0 where
  pub status : ℕ
  pub type : String
  pub message : String

abbrev pub http_error : ℕ → String → String → HttpError
http_error status type message = record { status = status; type = type; message = message }

-- the cases of the `switch`, on a code and the message that comes with it
unfoldable pub map_code : RouterErrorCode → String → HttpError
map_code invalid_request message = http_error 400 (code_text invalid_request) message
map_code unknown_provider message = http_error 400 (code_text unknown_provider) message
map_code unknown_model message = http_error 400 (code_text unknown_model) message
map_code unsupported_capability message = http_error 400 (code_text unsupported_capability) message
map_code provider_auth_required message =
    http_error 401 (code_text provider_auth_required) "Provider authentication required"
map_code provider_permission_denied message =
    http_error 403 (code_text provider_permission_denied) message
map_code provider_quota_exhausted message =
    http_error 429 (code_text provider_quota_exhausted) message
map_code provider_rate_limited message = http_error 429 (code_text provider_rate_limited) message
map_code provider_timeout message = http_error 504 (code_text provider_timeout) message
map_code provider_unavailable message = http_error 503 (code_text provider_unavailable) message
map_code provider_protocol_error message =
    http_error 500 (code_text provider_protocol_error) "Provider error"
map_code router_unauthorized message =
    http_error 500 (code_text router_unauthorized) "Provider error"
map_code router_misconfigured message =
    http_error 500 (code_text router_misconfigured) "Provider error"
map_code router_internal_error message =
    http_error 500 (code_text router_internal_error) "Provider error"

unfoldable pub map_router_error_to_http : Thrown → HttpError
unfolding map_code
map_router_error_to_http (router e) = map_code e.code e.message
map_router_error_to_http (other code) = http_error 500 "router_internal_error" "Internal error"

abbrev pub mapped : RouterError → HttpError
mapped e = map_router_error_to_http (router e)

infixl 5 ◌>>=◌ ◌>>◌
-- What a part of a handler does: it sends an error and returns, or goes on with a value.
pub data Step {ℓ} (A : Type ℓ) : Type ℓ where
  send : HttpError → Step A
  next : A → Step A

abbrev pub ◌>>=◌ {ℓ κ} : {A : Type ℓ} {B : Type κ} → Step A → (A → Step B) → Step B
send e >>= rest = send e
next a >>= rest = rest a

abbrev pub ◌>>◌ {ℓ κ} : {A : Type ℓ} {B : Type κ} → Step A → Step B → Step B
m >> rest = m >>= (λ done. rest)

-- go on with the value that is there, else send `e`
abbrev pub or_send {ℓ} : {A : Type ℓ} → Option A → HttpError → Step A
or_send none e = send e
or_send (some a) e = next a

-- go on if `b`, else send `e`
abbrev pub guard : Bool → HttpError → Step (Unit {0})
guard true e = next tt
guard false e = send e

-- The steps that send an error of the Router as the surface answers it.
module _ (answer : RouterError → HttpError) where
  -- `if (error) { return reply … }`
  abbrev pub unless_error : Option RouterError → Step (Unit {0})
  unless_error none = next tt
  unless_error (some e) = send (answer e)

  -- a value, or a `RouterError` that is returned or thrown
  abbrev pub or_mapped {ℓ} : {A : Type ℓ} → Result A → Step A
  or_mapped (ok a) = next a
  or_mapped (err e) = send (answer e)

  -- the same of a value that may be `undefined`
  abbrev pub optional {ℓ} : {A : Type ℓ} → Option (Result A) → Step (Option A)
  optional none = next none
  optional (some (ok a)) = next (some a)
  optional (some (err e)) = send (answer e)

  -- what a decision on the tools allows
  abbrev pub allowed : ToolAccessDecision → Step EffectiveToolAccess
  allowed (deny e) = send (answer e)
  allowed (allow access) = next access

-- `body[key]` if it is absent or a Boolean
unfoldable pub optional_bool : Option Json → HttpError → Step (Option Bool)
optional_bool none e = next none
optional_bool (some v) e = elim (as_bool (some v)) [ none ↦ send e | some b ↦ next (some b) ]

-- `body[key]` if it is a string that is not empty
unfoldable pub filled_string : Option Json → Option String
filled_string v = elim (as_string v) [ none ↦ none | some s ↦ if s == "" then none else some s ]

pub Step-cases {ℓ} :
    {A : Type ℓ} (s : Step A) → ((e : HttpError) × (s ≡ send e)) ⊎ ((a : A) × (s ≡ next a))
Step-cases (send e) = inl (e, refl)
Step-cases (next a) = inr (a, refl)
