-- ===== src/Core/Errors.antt =====
-- src/core/errors.ts, and a result type for code that throws a `RouterError`.
use Prim.Native.String
use cmm_routers.Prelude.{
  Bool, true, false, not, if◌then◌else◌, ◌↔◌, String, ◌≡◌, refl, ◌⊎◌, inl, inr, List, [], ◌∷◌,
}
use cmm_routers.Core.Json.{Json}

pub data RouterErrorCode : Type 0 where
  invalid_request : RouterErrorCode
  unknown_provider : RouterErrorCode
  unknown_model : RouterErrorCode
  unsupported_capability : RouterErrorCode
  provider_unavailable : RouterErrorCode
  provider_auth_required : RouterErrorCode
  provider_permission_denied : RouterErrorCode
  provider_quota_exhausted : RouterErrorCode
  provider_rate_limited : RouterErrorCode
  provider_timeout : RouterErrorCode
  provider_protocol_error : RouterErrorCode
  router_unauthorized : RouterErrorCode
  router_misconfigured : RouterErrorCode
  router_internal_error : RouterErrorCode

-- the code as the text that it is in the source
abbrev pub code_text : RouterErrorCode → String
code_text invalid_request = "invalid_request"
code_text unknown_provider = "unknown_provider"
code_text unknown_model = "unknown_model"
code_text unsupported_capability = "unsupported_capability"
code_text provider_unavailable = "provider_unavailable"
code_text provider_auth_required = "provider_auth_required"
code_text provider_permission_denied = "provider_permission_denied"
code_text provider_quota_exhausted = "provider_quota_exhausted"
code_text provider_rate_limited = "provider_rate_limited"
code_text provider_timeout = "provider_timeout"
code_text provider_protocol_error = "provider_protocol_error"
code_text router_unauthorized = "router_unauthorized"
code_text router_misconfigured = "router_misconfigured"
code_text router_internal_error = "router_internal_error"

pub record RouterError : Type 0 where
  pub code : RouterErrorCode
  pub message : String
  pub meta : List (String × Json)

-- `new RouterError(code, message)`, with the default `meta = {}`
abbrev pub router_error : RouterErrorCode → String → RouterError
router_error code message = record { code = code; message = message; meta = [] }

-- A template literal: its parts one after the other.
unfoldable pub template : List String → String
template [] = ""
template (s ∷ parts) = String.◌++◌ s (template parts)

infixl 5 ◌>>=◌ ◌>>◌
-- The answer of a function that may throw: the error that it throws, or its value.
pub data Result {ℓ} (A : Type ℓ) : Type ℓ where
  err : RouterError → Result A
  ok : A → Result A

pub Result-cases {ℓ} :
    {A : Type ℓ} (r : Result A) → ((e : RouterError) × (r ≡ err e)) ⊎ ((a : A) × (r ≡ ok a))
Result-cases (err e) = inl (e, refl)
Result-cases (ok a) = inr (a, refl)

abbrev pub ◌>>=◌ {ℓ κ} : {A : Type ℓ} {B : Type κ} → Result A → (A → Result B) → Result B
err thrown >>= rest = err thrown
ok value >>= rest = rest value

pub >>=-eq-ok {ℓ κ} :
    {X : Type ℓ} {Y : Type κ} (call : Result X) (rest : X → Result Y) {y : Y}
    → (call >>= rest) ≡ ok y
    → (x : X) × (call ≡ ok x) × (rest x ≡ ok y)
>>=-eq-ok (err thrown) rest h = cc
>>=-eq-ok (ok x) rest h = (x, refl, h)

-- a call for its effect alone
abbrev pub ◌>>◌ {ℓ} : {A : Type ℓ} → Result (Unit {0}) → Result A → Result A
check >> rest = check >>= (λ done. rest)

-- a guard that throws, before the rest of a function
pub guard_iff {ℓ κ μ} :
    {A : Type ℓ} {B : Type κ} {P : Type μ} (b : Bool) (e : RouterError) (m : Result A) (a : A)
    → ((b ≡ true) ↔ B)
    → ((m ≡ ok a) ↔ P)
    → ((if not b then err e else m) ≡ ok a) ↔ (B × P)
guard_iff true e m a hb hm = (λ h. (hb.0 refl, hm.0 h), λ h. hm.1 h.1)
guard_iff false e m a hb hm = (λ h. cc, λ h. let e : false ≡ true = hb.1 h.0 in cc)

pub >>_iff {ℓ κ μ} :
    {A : Type ℓ} {B : Type κ} {P : Type μ} (m : Result (Unit {0})) (k : Result A) (a : A)
    → ((m ≡ ok tt) ↔ B)
    → ((k ≡ ok a) ↔ P)
    → ((m >> k) ≡ ok a) ↔ (B × P)
>>_iff (ok tt) k a hm hk = (λ h. (hm.0 refl, hk.0 h), λ h. hk.1 h.1)
>>_iff (err e) k a hm hk = (λ h. cc, λ h. let e' : err e ≡ ok tt = hm.1 h.0 in cc)
