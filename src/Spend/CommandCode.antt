-- ===== src/Spend/CommandCode.antt =====
-- src/providers/command-code/spend-guard.ts
use Prim.Native.String.{String}
use cmm_routers.Prelude.{
  true, false, not, some, List, [], ◌∷◌, contains, string_eq, if◌then◌else◌, ◌≡◌, ◌↔◌, refl, arith,
  all, Bool-cases, inl, inr,
}
use cmm_routers.Core.Json.{
  Json, Fields, null, bool, num, decimal, str, arr, obj, field, end, prop, keys, is_str, is_num,
  is_bool,
}
use cmm_routers.Core.Json.Equality.{is_num_iff, is_str_iff, is_bool_iff}
use cmm_routers.Core.Errors.{
  RouterError, Result, ok, err, router_error, template, provider_auth_required, ◌>>◌,
}
use cmm_routers.Spend.File.{AckFile, absent, not_json, parsed}

-- The acknowledgement has one value: every field of it is a literal.
pub data SpendAcknowledgement : Type 0 where
  goat : SpendAcknowledgement

abbrev pub allowed_keys : List String
allowed_keys = "version" ∷ "plan" ∷ "autoTopUpDisabled" ∷ "allowOnDemandCredits" ∷ []

abbrev auth_required : String → RouterError
auth_required message = router_error provider_auth_required message

-- for (const key of Object.keys(raw)) …
unfoldable pub check_keys : Fields → Result (Unit {0})
unfolding template
check_keys end = ok tt
check_keys (field key v rest) =
    let below = check_keys rest in
    if contains allowed_keys key
    then below
    else err (
        auth_required
          (template ("Command Code spending acknowledgement has unknown field: " ∷ key ∷ [])))

unfoldable pub parse_fields : Fields → Result SpendAcknowledgement
unfolding check_keys
parse_fields fs =
    check_keys fs
    >> (if not (is_num (prop fs "version") 1)
        then err (auth_required "Command Code spending acknowledgement requires version 1")
        else if not (is_str (prop fs "plan") "GOAT")
        then err (auth_required "Command Code spending acknowledgement requires plan \"GOAT\"")
        else if not (is_bool (prop fs "autoTopUpDisabled") true)
        then err (auth_required "Command Code requires autoTopUpDisabled=true acknowledgement")
        else if not (is_bool (prop fs "allowOnDemandCredits") false)
        then err (auth_required "Command Code requires allowOnDemandCredits=false acknowledgement")
        else ok goat)

unfoldable pub parse_spend_acknowledgement : Json → Result SpendAcknowledgement
unfolding parse_fields
parse_spend_acknowledgement (obj fs) = parse_fields fs
parse_spend_acknowledgement _ =
    err (auth_required "Command Code spending acknowledgement invalid: expected an object")

-- `loadSpendAcknowledgement`, which `requireSpendAcknowledgement` calls
unfoldable pub load_spend_acknowledgement : String → AckFile → Result SpendAcknowledgement
unfolding parse_spend_acknowledgement
load_spend_acknowledgement ack_path absent = err (record {
  code = provider_auth_required;
  message = "Command Code spending acknowledgement missing: create the machine-local GOAT ack file";
  meta = ("ackPath", str ack_path) ∷ [];
})
load_spend_acknowledgement ack_path not_json = err (record {
  code = provider_auth_required;
  message = "Command Code spending acknowledgement is not valid JSON";
  meta = ("ackPath", str ack_path) ∷ [];
})
load_spend_acknowledgement ack_path (parsed raw) = parse_spend_acknowledgement raw

-- An object that acknowledges: the four fields with their values, and no other.
abbrev pub IsAcknowledging : Fields → Type 0
IsAcknowledging fs =
    (all (contains allowed_keys) (keys fs) ≡ true)
    × (prop fs "version" ≡ some (num 1))
    × (prop fs "plan" ≡ some (str "GOAT"))
    × (prop fs "autoTopUpDisabled" ≡ some (bool true))
    × (prop fs "allowOnDemandCredits" ≡ some (bool false))

abbrev pub IsAcknowledgement : Json → Type 0
IsAcknowledgement (obj fs) = IsAcknowledging fs
IsAcknowledgement _ = ⊥

check_keys_iff :
    (fs : Fields) → (check_keys fs ≡ ok tt) ↔ (all (contains allowed_keys) (keys fs) ≡ true)
unfolding check_keys
check_keys_iff end = (λ h. refl, λ h. refl)
check_keys_iff (field key v rest) = elim (Bool-cases (contains allowed_keys key)) [
  | inl known ↦ rw known (check_keys_iff rest)
  | inr unknown ↦ rw unknown (λ h. cc, λ h. cc)
]

parse_fields_iff : (fs : Fields) → (parse_fields fs ≡ ok goat) ↔ IsAcknowledging fs
unfolding parse_fields
parse_fields_iff fs = ground (
  arith,
  check_keys_iff fs,
  is_num_iff (prop fs "version") 1,
  is_str_iff (prop fs "plan") "GOAT",
  is_bool_iff (prop fs "autoTopUpDisabled") true,
  is_bool_iff (prop fs "allowOnDemandCredits") false,
)

-- A parsed value acknowledges the spending exactly when it is an object that has the four fields
-- with the values that switch spending off, and no other field.
pub parse_spend_acknowledgement_iff :
    (raw : Json) → (parse_spend_acknowledgement raw ≡ ok goat) ↔ IsAcknowledgement raw
unfolding parse_spend_acknowledgement
parse_spend_acknowledgement_iff (obj fs) = parse_fields_iff fs
parse_spend_acknowledgement_iff null = (λ h. cc, λ h. absurd h)
parse_spend_acknowledgement_iff (bool b) = (λ h. cc, λ h. absurd h)
parse_spend_acknowledgement_iff (num n) = (λ h. cc, λ h. absurd h)
parse_spend_acknowledgement_iff (decimal d) = (λ h. cc, λ h. absurd h)
parse_spend_acknowledgement_iff (str s) = (λ h. cc, λ h. absurd h)
parse_spend_acknowledgement_iff (arr xs) = (λ h. cc, λ h. absurd h)
