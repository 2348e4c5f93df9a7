-- ===== src/Secrets/Payg.antt =====
-- src/security/payg-guard.ts. The error is a plain one: what is thrown is its message.
use Prim.Native.String
use Prim.Native.String.{String}
use cmm_routers.Prelude.{
  Bool, false, not, Option, none, some, List, [], ◌∷◌, string_eq, ◌==◌, if◌then◌else◌, ◌≡◌, ◌↔◌,
  refl, any, Bool-cases, inl, inr,
}
use cmm_routers.Prelude.OrderedMap.{OrderedMap, get}
use cmm_routers.Core.Errors.{template}

abbrev pub forbidden_env : List String
forbidden_env = "OPENAI_API_KEY" ∷ "ANTHROPIC_API_KEY" ∷ "GEMINI_API_KEY" ∷ "GOOGLE_API_KEY" ∷ []

-- Boolean(env[key])
abbrev pub is_set : Option String → Bool
is_set none = false
is_set (some value) = not (value == "")

unfoldable pub present_keys : OrderedMap String String → List String → List String
present_keys env [] = []
present_keys env (key ∷ keys) =
    let rest = present_keys env keys in if is_set (get env key) then key ∷ rest else rest

-- present.join(", ")
unfoldable pub join_commas : List String → String
join_commas [] = ""
join_commas (key ∷ []) = key
join_commas (key ∷ next ∷ keys) = String.◌++◌ key (String.◌++◌ ", " (join_commas (next ∷ keys)))

abbrev pub blocked : List String → Option String
blocked [] = none
blocked (key ∷ keys) =
    some (template ("PAYG fallback blocked; unset: " ∷ join_commas (key ∷ keys) ∷ []))

unfoldable pub assert_no_payg_fallback : OrderedMap String String → Option String
unfolding present_keys join_commas template
assert_no_payg_fallback env = blocked (present_keys env forbidden_env)

present_keys_iff :
    (env : OrderedMap String String) (keys : List String)
    → (blocked (present_keys env keys) ≡ none) ↔ (any (λ key. is_set (get env key)) keys ≡ false)
unfolding present_keys
present_keys_iff env [] = (λ h. refl, λ h. refl)
present_keys_iff env (key ∷ keys) = elim (Bool-cases (is_set (get env key))) [
  | inl set ↦ rw set (λ h. cc, λ h. cc)
  | inr unset ↦ rw unset (present_keys_iff env keys)
]

-- The guard throws nothing exactly when none of the four keys of the environment is set to some text.
assert_no_payg_fallback_iff :
    (env : OrderedMap String String)
    → (assert_no_payg_fallback env ≡ none)
      ↔ (any (λ key. is_set (get env key)) forbidden_env ≡ false)
unfolding assert_no_payg_fallback
assert_no_payg_fallback_iff env = present_keys_iff env forbidden_env
