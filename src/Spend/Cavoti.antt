-- ===== src/Spend/Cavoti.antt =====
-- src/providers/cavoti/spend-guard.ts
use Prim.Native.String.{String}
use cmm_routers.Prelude.{
  Bool, true, false, not, some, List, [], ◌∷◌, contains, string_eq, nat_eq, length, ◌==◌,
  if◌then◌else◌, ◌≡◌, ◌↔◌, refl, all, Bool-cases, inl, inr,
}
use cmm_routers.Core.Json.{
  Json, Fields, null, bool, num, decimal, str, arr, obj, field, end, prop, keys, is_str, is_num,
  is_bool,
}
use cmm_routers.Core.Json.Equality.{is_num_iff, is_str_iff, is_bool_iff}
use cmm_routers.Core.Errors.{
  RouterError, Result, ok, err, router_error, template, provider_auth_required, ◌>>◌, guard_iff,
  >>_iff,
}
use cmm_routers.Spend.File.{AckFile, absent, not_json, parsed}

-- The acknowledgement has one value: every field of it is a literal.
pub data CavotiSpendAcknowledgement : Type 0 where
  payg : CavotiSpendAcknowledgement

abbrev pub cavoti_pinned_model : String
cavoti_pinned_model = "deepseek-v4.1-flash"

abbrev pub allowed : List String
allowed = "version" ∷ "provider" ∷ "billing" ∷ "model" ∷ "automaticFallback" ∷ []

-- the error of `invalid` with no path
unfoldable pub invalid : String → RouterError
unfolding template
invalid reason =
    router_error provider_auth_required
      (template ("Cavoti PAYG acknowledgement required: " ∷ reason ∷ []))

-- a path goes into `meta` unless it is empty
abbrev pub with_path : RouterError → String → RouterError
with_path e path = record {
  code = e.code;
  message = e.message;
  meta = if path == "" then [] else ("ackPath", str path) ∷ [];
}

unfoldable pub check_keys : Fields → Result (Unit {0})
unfolding invalid
check_keys end = ok tt
check_keys (field key v rest) =
    let below = check_keys rest in
    if contains allowed key then below else err (invalid (template ("unknown field: " ∷ key ∷ [])))

-- the size and the values, once the keys have been checked
unfoldable pub check_values : Fields → Result CavotiSpendAcknowledgement
unfolding invalid
check_values fs =
    if not (length (keys fs) == 5)
    then err (invalid "acknowledgement shape is incomplete")
    else if not (is_num (prop fs "version") 1)
    then err (invalid "version mismatch")
    else if not (is_str (prop fs "provider") "cavoti")
    then err (invalid "provider mismatch")
    else if not (is_str (prop fs "billing") "PAYG")
    then err (invalid "billing must explicitly be PAYG")
    else if not (is_str (prop fs "model") cavoti_pinned_model)
    then err (invalid (template ("model must be exactly " ∷ cavoti_pinned_model ∷ [])))
    else if not (is_bool (prop fs "automaticFallback") false)
    then err (invalid "automaticFallback must be false")
    else ok payg

unfoldable pub parse_fields : Fields → Result CavotiSpendAcknowledgement
unfolding check_keys check_values
parse_fields fs = check_keys fs >> check_values fs

unfoldable pub parse_cavoti_spend_acknowledgement : Json → Result CavotiSpendAcknowledgement
unfolding parse_fields invalid
parse_cavoti_spend_acknowledgement (obj fs) = parse_fields fs
parse_cavoti_spend_acknowledgement _ = err (invalid "acknowledgement must be an object")

-- An error of the parser is thrown again with the path as its only `meta`.
abbrev pub rethrown : Result CavotiSpendAcknowledgement → String → Result CavotiSpendAcknowledgement
rethrown (ok a) path = ok a
rethrown (err e) path =
    err (record { code = e.code; message = e.message; meta = ("ackPath", str path) ∷ [] })

unfoldable pub require_cavoti_spend_acknowledgement :
    String → AckFile → Result CavotiSpendAcknowledgement
unfolding parse_cavoti_spend_acknowledgement invalid
require_cavoti_spend_acknowledgement path absent =
    err (with_path (invalid "acknowledgement file is absent") path)
require_cavoti_spend_acknowledgement path not_json =
    err (with_path (invalid "acknowledgement file is not valid JSON") path)
require_cavoti_spend_acknowledgement path (parsed raw) =
    rethrown (parse_cavoti_spend_acknowledgement raw) path

unfoldable pub has_cavoti_spend_acknowledgement : String → AckFile → Bool
unfolding require_cavoti_spend_acknowledgement
has_cavoti_spend_acknowledgement path file = elim (require_cavoti_spend_acknowledgement path file) [
  | ok a ↦ true
  | err e ↦ false
]

abbrev pub IsAcknowledging : Fields → Type 0
IsAcknowledging fs =
    (all (contains allowed) (keys fs) ≡ true)
    × ((length (keys fs) ≡ 5)
        × ((prop fs "version" ≡ some (num 1))
            × ((prop fs "provider" ≡ some (str "cavoti"))
                × ((prop fs "billing" ≡ some (str "PAYG"))
                    × ((prop fs "model" ≡ some (str "deepseek-v4.1-flash"))
                        × (prop fs "automaticFallback" ≡ some (bool false)))))))

-- A file whose object acknowledges: exactly five fields, with the billing, the pinned model and no
-- fallback.
abbrev pub IsAcknowledgement : AckFile → Type 0
IsAcknowledgement (parsed (obj fs)) = IsAcknowledging fs
IsAcknowledgement _ = ⊥

check_keys_iff : (fs : Fields) → (check_keys fs ≡ ok tt) ↔ (all (contains allowed) (keys fs) ≡ true)
unfolding check_keys
check_keys_iff end = (λ h. refl, λ h. refl)
check_keys_iff (field key v rest) = elim (Bool-cases (contains allowed key)) [
  | inl known ↦ rw known (check_keys_iff rest)
  | inr unknown ↦ rw unknown (λ h. cc, λ h. cc)
]

last_guard :
    {B : Type 0} (b : Bool) (e : RouterError)
    → ((b ≡ true) ↔ B)
    → ((if not b then err e else ok payg) ≡ ok payg) ↔ B
last_guard true e hb = (λ h. hb.0 refl, λ h. refl)
last_guard false e hb = (λ h. cc, λ h. let e : false ≡ true = hb.1 h in cc)

parse_fields_iff : (fs : Fields) → (parse_fields fs ≡ ok payg) ↔ IsAcknowledging fs
unfolding parse_fields check_values
parse_fields_iff fs = >>_iff (check_keys fs) (check_values fs) payg (check_keys_iff fs) (
    guard_iff _ _ _ payg (nat_eq.beq_iff (length (keys fs)) 5) (
      guard_iff _ _ _ payg (is_num_iff (prop fs "version") 1) (
        guard_iff _ _ _ payg (is_str_iff (prop fs "provider") "cavoti") (
          guard_iff _ _ _ payg (is_str_iff (prop fs "billing") "PAYG") (
            guard_iff _ _ _ payg (is_str_iff (prop fs "model") cavoti_pinned_model)
              (last_guard _ _ (is_bool_iff (prop fs "automaticFallback") false)))))))

rethrown_iff :
    (r : Result CavotiSpendAcknowledgement) (path : String)
    → (rethrown r path ≡ ok payg) ↔ (r ≡ ok payg)
rethrown_iff (ok payg) path = (λ h. h, λ h. h)
rethrown_iff (err e) path = (λ h. cc, λ h. cc)

-- `requireCavotiSpendAcknowledgement` returns the acknowledgement, and throws no error, exactly when
-- the file is there, parses to an object, and that object has the five fields with their values and
-- no other.
pub require_cavoti_spend_acknowledgement_iff :
    (path : String) (file : AckFile)
    → (require_cavoti_spend_acknowledgement path file ≡ ok payg) ↔ IsAcknowledgement file
unfolding require_cavoti_spend_acknowledgement parse_cavoti_spend_acknowledgement
require_cavoti_spend_acknowledgement_iff path absent = (λ h. cc, λ h. absurd h)
require_cavoti_spend_acknowledgement_iff path not_json = (λ h. cc, λ h. absurd h)
require_cavoti_spend_acknowledgement_iff path (parsed (obj fs)) = (
  λ h. (parse_fields_iff fs).0 ((rethrown_iff (parse_fields fs) path).0 h),
  λ h. (rethrown_iff (parse_fields fs) path).1 ((parse_fields_iff fs).1 h),
)
require_cavoti_spend_acknowledgement_iff path (parsed null) = (λ h. cc, λ h. absurd h)
require_cavoti_spend_acknowledgement_iff path (parsed (bool b)) = (λ h. cc, λ h. absurd h)
require_cavoti_spend_acknowledgement_iff path (parsed (num n)) = (λ h. cc, λ h. absurd h)
require_cavoti_spend_acknowledgement_iff path (parsed (decimal d)) = (λ h. cc, λ h. absurd h)
require_cavoti_spend_acknowledgement_iff path (parsed (str s)) = (λ h. cc, λ h. absurd h)
require_cavoti_spend_acknowledgement_iff path (parsed (arr xs)) = (λ h. cc, λ h. absurd h)
