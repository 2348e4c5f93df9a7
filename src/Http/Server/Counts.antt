-- ===== src/Http/Server/Counts.antt =====
-- src/http/diagnostics.ts: the model counts of the providers.
use Prim.Native.String.{String}
use text.Mathlib.TextEquality.{eq_iff}
use cmm_routers.Prelude.{
  ℕ, suc, ◌+◌, ◌≡◌, refl, true, false, not, ◌&&◌, List, [], ◌∷◌, map, length, contains, string_eq,
  ◌==◌, arith, if◌then◌else◌, Bool-cases, inl, inr, ==_refl, eq_of_==, ap, subst, sym, ◌∙◌,
}
use cmm_routers.Core.Model.{DiscoveredModel, provider_text}
use cmm_routers.Core.ToolAccess.NameSet.{without, to_set, IsUnique, contains-to_set}
use cmm_routers.Registry.{ProviderRegistry, list_models}
use cmm_routers.Http.Server.{
  ProviderCount, count_models, providers_reply, model_entry, models_reply,
}

-- how often a name stands in a list
abbrev occurrences : String → List String → ℕ
occurrences id [] = 0
occurrences id (x ∷ names) = let rest = occurrences id names in if x == id then suc rest else rest

abbrev sum_over : (String → ℕ) → List String → ℕ
sum_over f [] = 0
sum_over f (x ∷ names) = f x + sum_over f names

abbrev pub total_of : List ProviderCount → ℕ
total_of [] = 0
total_of (c ∷ counts) = c.model_count + total_of counts

contains-without :
    (name x : String) (xs : List String)
    → contains (without name xs) x ≡ (contains xs x && not (name == x))
unfolding without
contains-without name x [] = refl
contains-without name x (y ∷ ys) =
    ground (arith, contains-without name x ys, eq_iff y name, eq_iff y x, eq_iff name x)

without-IsUnique : (name : String) (xs : List String) → IsUnique xs → IsUnique (without name xs)
unfolding without
without-IsUnique name [] h = tt
without-IsUnique name (x ∷ xs) h = elim (Bool-cases (x == name)) [
  | inl same ↦ rw same (without-IsUnique name xs h.1)
  | inr other ↦
      rw other (ground (arith, contains-without name x xs, h.0), without-IsUnique name xs h.1)
]

to_set-IsUnique : (xs : List String) → IsUnique (to_set xs)
unfolding to_set
to_set-IsUnique [] = tt
to_set-IsUnique (x ∷ xs) = (
  ground (arith, contains-without x x (to_set xs), ==_refl x),
  without-IsUnique x (to_set xs) (to_set-IsUnique xs),
)

without_absent :
    (name : String) (xs : List String) → contains xs name ≡ false → without name xs ≡ xs
unfolding without
without_absent name [] h = refl
without_absent name (x ∷ xs) h = elim (Bool-cases (x == name)) [
  | inl same ↦ absurd (ground (arith, same, h))
  | inr other ↦ rw other (ap (λ r. x ∷ r) (without_absent name xs (ground (arith, other, h))))
]

sum-without :
    (f : String → ℕ) (name : String) (xs : List String)
    → IsUnique xs
    → contains xs name ≡ true
    → f name + sum_over f (without name xs) ≡ sum_over f xs
unfolding without
sum-without f name [] u h = cc
sum-without f name (x ∷ xs) u h = elim (Bool-cases (x == name)) [
  | inl same ↦
      let e : x ≡ name = eq_of_== x name same in
      let gone : without name xs ≡ xs =
        without_absent name xs (subst (λ n. contains xs n ≡ false) e u.0) in
      rw same (rw gone (ap (λ n. f n + sum_over f xs) (sym e)))
  | inr other ↦
      let rest = sum-without f name xs u.1 (ground (arith, other, h)) in
      rw other (omega (arith, rest))
]

absent_zero :
    (name : String) (xs : List String) → contains xs name ≡ false → occurrences name xs ≡ 0
absent_zero name [] h = refl
absent_zero name (x ∷ xs) h = ground (arith, absent_zero name xs)

sum_step :
    (name : String) (names xs : List String)
    → contains xs name ≡ false
    → sum_over (λ id. occurrences id (name ∷ names)) xs ≡ sum_over (λ id. occurrences id names) xs
sum_step name names [] h = refl
sum_step name names (x ∷ xs) h =
    ground (arith, sum_step name names xs, eq_iff x name, eq_iff name x, h)

sum-occurrences :
    (names : List String) → sum_over (λ id. occurrences id names) (to_set names) ≡ length names
unfolding to_set
sum-occurrences [] = refl
sum-occurrences (name ∷ names) =
    let rest = sum-occurrences names in
    let step =
      sum_step name names (without name (to_set names))
        (ground (arith, contains-without name name (to_set names), ==_refl name)) in
    let first : occurrences name (name ∷ names) ≡ suc (occurrences name names) =
      rw (==_refl name) refl in
    elim (Bool-cases (contains names name)) [
      | inl again ↦
          let split =
            sum-without (λ id. occurrences id names) name (to_set names) (to_set-IsUnique names)
              (contains-to_set names name ∙ again) in
          omega (arith, rest, step, first, split)
      | inr new ↦
          let zero_more = absent_zero name names new in
          let same =
            ap (sum_over (λ id. occurrences id names))
              (without_absent name (to_set names) (contains-to_set names name ∙ new)) in
          omega (arith, rest, step, first, zero_more, same)
    ]

count_models-occurrences :
    (id : String) (models : List DiscoveredModel)
    → count_models id models ≡ occurrences id (map (λ m. provider_text m.provider) models)
unfolding count_models
count_models-occurrences id [] = refl
count_models-occurrences id (m ∷ models) = elim (Bool-cases (provider_text m.provider == id)) [
  | inl same ↦ rw same (ap (λ n. suc n) (count_models-occurrences id models))
  | inr other ↦ rw other (count_models-occurrences id models)
]

total_of-map :
    (models : List DiscoveredModel) (ids : List String)
    → total_of (map (λ id. record { id = id; model_count = count_models id models }) ids)
      ≡ sum_over (λ id. occurrences id (map (λ m. provider_text m.provider) models)) ids
total_of-map models [] = refl
total_of-map models (id ∷ ids) = rw (count_models-occurrences id models) (
    ap (λ n. occurrences id (map (λ m. provider_text m.provider) models) + n)
      (total_of-map models ids))

length-map : {A B : Type 0} (f : A → B) (xs : List A) → length (map f xs) ≡ length xs
length-map f [] = refl
length-map f (x ∷ xs) = ap (λ n. suc n) (length-map f xs)

-- The counts that `/v1/cmm/providers` gives add up to the number of models that `/v1/models` lists:
-- no model is counted twice, and none is left out.
pub providers_reply-total :
    {A : Type 0} (r : ProviderRegistry A) → total_of (providers_reply r) ≡ length (models_reply r)
unfolding providers_reply models_reply
providers_reply-total r =
    let models = list_models r in
    let names = map (λ m. provider_text m.provider) models in
    total_of-map models (to_set names)
    ∙ sum-occurrences names
    ∙ length-map (λ m. provider_text m.provider) models
    ∙ sym (length-map model_entry models)
