-- ===== src/Secrets/Redaction.antt =====
-- src/security/secret-redaction.ts. An assignment to the property `__proto__` of an object literal
-- sets no property of its own, so such a field is lost.
use cmm_routers.Prelude.{◌≡◌, refl, ap, Bool-cases, inl, inr, string_eq, ◌==◌, if◌then◌else◌}
use cmm_routers.Core.Json.{
  Json, Items, Fields, null, bool, num, decimal, str, arr, obj, nil, cons, end, field,
}
use cmm_routers.Secrets.Names.{is_secret_key}

abbrev pub redacted : Json
redacted = str "[REDACTED]"

unfoldable mutual
  pub redact_object : Json → Json
  redact_object (arr xs) = arr (redact_items xs)
  redact_object (obj fs) = obj (redact_fields fs)
  redact_object null = null
  redact_object (bool b) = bool b
  redact_object (num n) = num n
  redact_object (decimal d) = decimal d
  redact_object (str s) = str s

  pub redact_items : Items → Items
  redact_items nil = nil
  redact_items (cons x xs) = cons (redact_object x) (redact_items xs)

  pub redact_fields : Fields → Fields
  redact_fields end = end
  redact_fields (field key v fs) =
      let value = redact_object v in
      let rest = redact_fields fs in
      if is_secret_key key
      then field key redacted rest
      else if key == "__proto__"
      then rest
      else field key value rest

-- Every field with a secret name, at any depth, holds the mark of redaction.
unfoldable mutual
  pub IsRedacted : Json → Type 0
  IsRedacted (arr xs) = AreRedacted xs
  IsRedacted (obj fs) = HasRedacted fs
  IsRedacted null = Unit
  IsRedacted (bool b) = Unit
  IsRedacted (num n) = Unit
  IsRedacted (decimal d) = Unit
  IsRedacted (str s) = Unit

  pub AreRedacted : Items → Type 0
  AreRedacted nil = Unit
  AreRedacted (cons x xs) = IsRedacted x × AreRedacted xs

  pub HasRedacted : Fields → Type 0
  HasRedacted end = Unit
  HasRedacted (field key v fs) =
      (if is_secret_key key then v ≡ redacted else IsRedacted v) × HasRedacted fs

mutual
  unfolding redact_object IsRedacted

  redact-IsRedacted : (v : Json) → IsRedacted (redact_object v)
  redact-IsRedacted (arr xs) = redact-AreRedacted xs
  redact-IsRedacted (obj fs) = redact-HasRedacted fs
  redact-IsRedacted null = tt
  redact-IsRedacted (bool b) = tt
  redact-IsRedacted (num n) = tt
  redact-IsRedacted (decimal d) = tt
  redact-IsRedacted (str s) = tt

  redact-AreRedacted : (xs : Items) → AreRedacted (redact_items xs)
  redact-AreRedacted nil = tt
  redact-AreRedacted (cons x xs) = (redact-IsRedacted x, redact-AreRedacted xs)

  redact-HasRedacted : (fs : Fields) → HasRedacted (redact_fields fs)
  redact-HasRedacted end = tt
  redact-HasRedacted (field key v fs) = elim (Bool-cases (is_secret_key key)) [
    | inl secret ↦ rw secret (rw secret (refl, redact-HasRedacted fs))
    | inr open_key ↦ elim (Bool-cases (key == "__proto__")) [
      | inl proto ↦ rw (open_key, proto) (redact-HasRedacted fs)
      | inr own ↦ rw (open_key, own) (rw open_key (redact-IsRedacted v, redact-HasRedacted fs))
    ]
  ]

mutual
  unfolding redact_object

  redact-redact : (v : Json) → redact_object (redact_object v) ≡ redact_object v
  redact-redact (arr xs) = ap arr (redact_items_again xs)
  redact-redact (obj fs) = ap obj (redact_fields_again fs)
  redact-redact null = refl
  redact-redact (bool b) = refl
  redact-redact (num n) = refl
  redact-redact (decimal d) = refl
  redact-redact (str s) = refl

  redact_items_again : (xs : Items) → redact_items (redact_items xs) ≡ redact_items xs
  redact_items_again nil = refl
  redact_items_again (cons x xs) = rw (redact-redact x, redact_items_again xs) refl

  redact_fields_again : (fs : Fields) → redact_fields (redact_fields fs) ≡ redact_fields fs
  redact_fields_again end = refl
  redact_fields_again (field key v fs) = elim (Bool-cases (is_secret_key key)) [
    | inl secret ↦ rw secret (rw (secret, redact_fields_again fs) refl)
    | inr open_key ↦ elim (Bool-cases (key == "__proto__")) [
      | inl proto ↦ rw (open_key, proto) (redact_fields_again fs)
      | inr own ↦
          rw (open_key, own) (rw (open_key, own, redact-redact v, redact_fields_again fs) refl)
    ]
  ]

-- In a redacted value every field with a secret name, at any depth and in any case of letters, holds
-- the mark of redaction and nothing of its value, and redacting again changes nothing.
pub redact_object_lem :
    (v : Json) → IsRedacted (redact_object v) × (redact_object (redact_object v) ≡ redact_object v)
redact_object_lem v = (redact-IsRedacted v, redact-redact v)
