-- ===== src/Secrets/Wire.antt =====
-- src/core/wire.ts: `assertNoSecrets`, and `serializeEnvelope` up to the text of `JSON.stringify`.
use Prim.Native.String
use Prim.Native.String.{String}
use cmm_routers.Prelude.{
  ℕ, zero, suc, ◌/◌, ◌%◌, ◌≡◌, ◌↔◌, refl, ap, false, Bool-cases, inl, inr, List, [], ◌∷◌, string_eq,
  nat_eq, ltb, if◌then◌else◌,
}
use cmm_routers.Core.Json.{
  Json, Items, Fields, null, bool, num, decimal, str, arr, obj, nil, cons, end, field,
}
use cmm_routers.Core.Errors.{
  RouterError, Result, ok, err, router_error, provider_protocol_error, template, ◌>>◌, >>_iff,
}
use cmm_routers.Secrets.Names.{is_forbidden_wire_key}

abbrev pub pick : ℕ → List String → String
pick n [] = ""
pick zero (x ∷ xs) = x
pick (suc n) (x ∷ xs) = pick n xs

abbrev pub digit : ℕ → String
digit n = pick n ("0" ∷ "1" ∷ "2" ∷ "3" ∷ "4" ∷ "5" ∷ "6" ∷ "7" ∷ "8" ∷ "9" ∷ [])

-- The decimal text of a number; the number itself is more than enough fuel, since each digit divides
-- it by ten.
unfoldable pub decimal_text : (fuel : ℕ) → ℕ → String
decimal_text zero n = digit n
decimal_text (suc fuel) n =
    let high = decimal_text fuel (n / 10) in
    if ltb n 10 then digit n else String.◌++◌ high (digit (n % 10))

unfoldable pub secret_field : String → String → RouterError
unfolding template
secret_field path key =
    router_error provider_protocol_error
      (template ("Wire envelope must not carry secret field: " ∷ path ∷ "." ∷ key ∷ []))

unfoldable mutual
  unfolding template decimal_text secret_field

  pub assert_no_secrets : Json → String → Result (Unit {0})
  assert_no_secrets (arr xs) path = assert_items xs path 0
  assert_no_secrets (obj fs) path = assert_fields fs path
  assert_no_secrets null path = ok tt
  assert_no_secrets (bool b) path = ok tt
  assert_no_secrets (num n) path = ok tt
  assert_no_secrets (decimal d) path = ok tt
  assert_no_secrets (str s) path = ok tt

  pub assert_items : Items → String → ℕ → Result (Unit {0})
  assert_items nil path index = ok tt
  assert_items (cons x xs) path index =
      assert_no_secrets x (template (path ∷ "[" ∷ decimal_text index index ∷ "]" ∷ []))
      >> assert_items xs path (suc index)

  pub assert_fields : Fields → String → Result (Unit {0})
  assert_fields end path = ok tt
  assert_fields (field key v fs) path =
      let below = assert_no_secrets v (template (path ∷ "." ∷ key ∷ [])) in
      let rest = assert_fields fs path in
      if is_forbidden_wire_key key then err (secret_field path key) else (below >> rest)

-- The value whose JSON text is the envelope on the wire.
unfoldable pub serialize_envelope : Json → Result Json
unfolding assert_no_secrets
serialize_envelope envelope = assert_no_secrets envelope "$" >> ok envelope

-- No field at any depth has a forbidden name.
unfoldable mutual
  pub IsClean : Json → Type 0
  IsClean (arr xs) = AreClean xs
  IsClean (obj fs) = HasCleanFields fs
  IsClean null = Unit
  IsClean (bool b) = Unit
  IsClean (num n) = Unit
  IsClean (decimal d) = Unit
  IsClean (str s) = Unit

  pub AreClean : Items → Type 0
  AreClean nil = Unit
  AreClean (cons x xs) = IsClean x × AreClean xs

  pub HasCleanFields : Fields → Type 0
  HasCleanFields end = Unit
  HasCleanFields (field key v fs) =
      (is_forbidden_wire_key key ≡ false) × (IsClean v × HasCleanFields fs)

mutual
  unfolding assert_no_secrets IsClean

  assert_no_secrets_iff :
      (v : Json) (path : String) → (assert_no_secrets v path ≡ ok tt) ↔ IsClean v
  assert_no_secrets_iff (arr xs) path = assert_items_iff xs path 0
  assert_no_secrets_iff (obj fs) path = assert_fields_iff fs path
  assert_no_secrets_iff null path = (λ h. tt, λ h. refl)
  assert_no_secrets_iff (bool b) path = (λ h. tt, λ h. refl)
  assert_no_secrets_iff (num n) path = (λ h. tt, λ h. refl)
  assert_no_secrets_iff (decimal d) path = (λ h. tt, λ h. refl)
  assert_no_secrets_iff (str s) path = (λ h. tt, λ h. refl)

  assert_items_iff :
      (xs : Items) (path : String) (index : ℕ) → (assert_items xs path index ≡ ok tt) ↔ AreClean xs
  assert_items_iff nil path index = (λ h. tt, λ h. refl)
  assert_items_iff (cons x xs) path index =
      >>_iff _ _ tt (assert_no_secrets_iff x _) (assert_items_iff xs path (suc index))

  assert_fields_iff :
      (fs : Fields) (path : String) → (assert_fields fs path ≡ ok tt) ↔ HasCleanFields fs
  assert_fields_iff end path = (λ h. tt, λ h. refl)
  assert_fields_iff (field key v fs) path = elim (Bool-cases (is_forbidden_wire_key key)) [
    | inl bad ↦ rw bad (λ h. cc, λ h. cc)
    | inr good ↦
        let both =
          >>_iff (assert_no_secrets v (template (path ∷ "." ∷ key ∷ []))) (assert_fields fs path) tt
            (assert_no_secrets_iff v _) (assert_fields_iff fs path) in
        rw good (λ h. (refl, both.0 h), λ h. both.1 h.1)
  ]

-- An envelope is put on the wire exactly when no field of it, at any depth and in any case of
-- letters, has the name of a secret; and then it is the envelope itself that goes.
pub serialize_envelope_iff :
    (envelope sent : Json)
    → (serialize_envelope envelope ≡ ok sent) ↔ (IsClean envelope × (envelope ≡ sent))
unfolding serialize_envelope
serialize_envelope_iff envelope sent =
    >>_iff (assert_no_secrets envelope "$") (ok envelope) sent (assert_no_secrets_iff envelope "$")
      (λ h. cc, λ h. ap ok h)
