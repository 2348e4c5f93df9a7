-- ===== src/Registry/Discovery.antt =====
-- What the cache holds after any sequence of registrations and settled discoveries, and what
-- `resolve` answers from it.
use cmm_routers.Prelude.{
  ℕ, ◌≡◌, refl, ◌∙◌, sym, ap, subst, Option, none, some, List, [], ◌∷◌, inl, inr, String, string_eq,
  ◌==◌, ==_refl, if◌then◌else◌, arith, Option-cases, Bool-cases, eq_of_==,
}
use cmm_routers.Prelude.OrderedMap.{get, get-put}
use mathlib.Core.List.{Mem, mem-cons_self, mem-cons_of_mem}
use cmm_routers.Core.Errors.{ok, Result-cases, ◌>>=◌, >>=-eq-ok}
use cmm_routers.Core.Model.{DiscoveredModel}
use cmm_routers.Registry.{
  Discovered, CachedDiscovery, ProviderRegistry, Event, register, settled, cached, new, store, step,
  run, resolve_for, resolve, provider_of, answer, find_model, is_stale, before_slash, get_adapter,
  Adapter,
}

-- The discovery of a provider that settled last, after `c` was there.
unfoldable pub latest :
    {A : Type 0} → List (Event A) → String → Option CachedDiscovery → Option CachedDiscovery
latest [] id c = c
latest (register a ∷ es) id c = latest es id c
latest (settled j now outcome ∷ es) id c =
    latest es id (if j == id then some (cached now outcome) else c)

-- the discovery that `resolve` answers from
abbrev pub used : ℕ → ℕ → Discovered → Option CachedDiscovery → Option CachedDiscovery
used now done outcome c = if is_stale now c then some (cached done outcome) else c

-- A model that a discovery found.
abbrev pub Lists : Option CachedDiscovery → DiscoveredModel → Type 0
Lists none model = ⊥
Lists (some c) model = (c.error ≡ none) × Mem model c.models

find_model-Mem :
    (models : List DiscoveredModel) (model_id : String) {model : DiscoveredModel}
    → find_model models model_id ≡ some model
    → Mem model models × (model.id ≡ model_id)
unfolding find_model
find_model-Mem [] model_id h = cc
find_model-Mem (m ∷ models) model_id {model = model} h = elim (Bool-cases (m.id == model_id)) [
  | inl e ↦
      (let same : m ≡ model = ground (arith, e, h) in
        (
          subst (λ x. Mem x (m ∷ models)) same mem-cons_self,
          ap (λ x. x.id) (sym same) ∙ eq_of_== m.id model_id e,
        ))
  | inr e ↦
      (let below = find_model-Mem models model_id (ground (arith, e, h)) in
        (mem-cons_of_mem m below.0, below.1))
]

answer-Lists :
    (model_id id : String) (c : Option CachedDiscovery) {model : DiscoveredModel}
    → answer model_id id c ≡ ok model
    → Lists c model × (model.id ≡ model_id)
unfolding answer
answer-Lists model_id id none h = cc
answer-Lists model_id id (some c) {model = model} h = elim (Option-cases c.error) [
  | inr (e, he) ↦ ground (arith, h, he)
  | inl he ↦ elim (Option-cases (find_model c.models model_id)) [
    | inl hf ↦ ground (arith, h, he, hf)
    | inr (m, hf) ↦
        (let same : m ≡ model = ground (arith, h, he, hf) in
          let lists = find_model-Mem c.models model_id (hf ∙ ap some same) in
          ((he, lists.0), lists.1))
  ]
]

module _ {A : Type 0} where
  run-latest :
      (es : List (Event A)) (r : ProviderRegistry A) (id : String)
      → get (run es r).discovery_cache id ≡ latest es id (get r.discovery_cache id)
  unfolding run step store latest
  run-latest [] r id = refl
  run-latest (register a ∷ es) r id = run-latest es _ id
  run-latest (settled j now outcome ∷ es) r id =
      run-latest es (step (settled j now outcome) r) id
      ∙ rw (get-put r.discovery_cache j id (cached now outcome)) refl

  resolve_for_lem :
      (model_id id : String) (now done : ℕ) (outcome : Discovered) (between : List (Event A))
      (r : ProviderRegistry A)
      → (resolve_for model_id id now done outcome between r).1
        ≡ answer model_id id (used now done outcome (get r.discovery_cache id))
  unfolding resolve_for store
  resolve_for_lem model_id id now done outcome between r =
      ground
        (arith, get-put (run between r).discovery_cache id id (cached done outcome), ==_refl id)

  -- what `resolve` answers, of what the cache holds
  resolve_lem :
      (es : List (Event A)) (model_id : String) (now done : ℕ) (outcome : Discovered)
      (between : List (Event A))
      → (resolve model_id now done outcome between (run es new)).1 ≡ (
          provider_of model_id (run es new) >>= λ id.
          answer model_id id (used now done outcome (latest es id none)))
  unfolding resolve new get
  resolve_lem es model_id now done outcome between =
      elim (Result-cases (provider_of model_id (run es new))) [
        | inl (e, h) ↦ rw (h, resolve) refl
        | inr (id, h) ↦
            rw (h, resolve)
              (resolve_for_lem model_id id now done outcome between (run es new)
                ∙ rw run-latest refl)
      ]

  registered_under :
      (model_id : String) (r : ProviderRegistry A) {id : String}
      → provider_of model_id r ≡ ok id
      → (before_slash model_id ≡ some id) × (a : Adapter A) × (get_adapter r id ≡ some a)
  unfolding provider_of
  registered_under model_id r {id = id} h = elim (Option-cases (before_slash model_id)) [
    | inl e ↦ ground (arith, e, h)
    | inr (j, e) ↦ elim (Option-cases (get_adapter r j)) [
      | inl e' ↦ ground (arith, e, e', h)
      | inr (a, e') ↦
          let same : j ≡ id = ground (arith, e, e', h) in
          (e ∙ ap some same, a, ap (get_adapter r) (sym same) ∙ e')
    ]
  ]

  -- The model that `resolve` answers has exactly the id that was asked for, and is one of the models
  -- that the provider named by the text before the slash, which is registered, listed itself in the
  -- discovery that answers, which did not fail. No other provider's models are ever answered.
  pub resolve-ok :
      (es : List (Event A)) (model_id : String) (now done : ℕ) (outcome : Discovered)
      (between : List (Event A)) (model : DiscoveredModel)
      → (resolve model_id now done outcome between (run es new)).1 ≡ ok model
      → (model.id ≡ model_id)
        × ((id : String) × (before_slash model_id ≡ some id)
            × ((a : Adapter A) × (get_adapter (run es new) id ≡ some a))
            × Lists (used now done outcome (latest es id none)) model)
  resolve-ok es model_id now done outcome between model h =
      let (id, found_provider, answered) =
        >>=-eq-ok (provider_of model_id (run es new))
          (λ id. answer model_id id (used now done outcome (latest es id none)))
          (sym (resolve_lem es model_id now done outcome between) ∙ h) in
      let lists = answer-Lists model_id id (used now done outcome (latest es id none)) answered in
      let under = registered_under model_id (run es new) found_provider in
      (lists.1, (id, under.0, (under.1, under.2), lists.0))
