-- ===== src/Registry/Caching.antt =====
-- src/registry/provider-registry.ts: when `resolve` answers from its cache.
use cmm_routers.Prelude.{
  ℕ, ◌+◌, ◌≤◌, ◌≡◌, refl, ◌∙◌, sym, ap, subst, none, some, List, [], ◌∷◌, inl, inr, String,
  string_eq, ◌==◌, arith, Option-cases, Bool-cases,
}
use cmm_routers.Prelude.OrderedMap.{get, get-put}
use cmm_routers.Core.Errors.{Result, err}
use cmm_routers.Core.Model.{DiscoveredModel, provider_text}
use cmm_routers.Registry.{
  Discovered, CachedDiscovery, ProviderRegistry, Event, register, settled, store, step, run,
  resolve_for, resolve, provider_of, answer, is_stale, before_slash, get_adapter, no_provider,
  Adapter,
}

module _ {A : Type 0} where
  -- who is registered stays registered
  run-get_adapter :
      (es : List (Event A)) (r : ProviderRegistry A) (id : String) (a : Adapter A)
      → get_adapter r id ≡ some a
      → (a' : Adapter A) × (get_adapter (run es r) id ≡ some a')
  unfolding run step store get_adapter
  run-get_adapter [] r id a h = (a, h)
  run-get_adapter (register b ∷ es) r id a h = elim (Bool-cases (provider_text b.id == id)) [
    | inl same ↦
        run-get_adapter es (step (register b) r) id b
          (ground (arith, get-put r.providers (provider_text b.id) id b, same))
    | inr other ↦
        run-get_adapter es (step (register b) r) id a
          (ground (arith, get-put r.providers (provider_text b.id) id b, other, h))
  ]
  run-get_adapter (settled j now outcome ∷ es) r id a h =
      run-get_adapter es (step (settled j now outcome) r) id a h

  fresh_answer :
      (model_id id : String) (later done : ℕ) (outcome : Discovered) (between : List (Event A))
      (r : ProviderRegistry A) (c : CachedDiscovery)
      → get r.discovery_cache id ≡ some c
      → later ≤ c.timestamp + 30000
      → resolve_for model_id id later done outcome between r
        ≡ (r, answer model_id id (get r.discovery_cache id))
  unfolding resolve_for is_stale
  fresh_answer model_id id later done outcome between r c h fresh = ground arith

  -- what `resolve_for` leaves is what it answers from
  resolve_for-kept :
      (model_id id : String) (now done : ℕ) (outcome : Discovered) (between : List (Event A))
      (r : ProviderRegistry A) (a : Adapter A)
      → get_adapter r id ≡ some a
      → let (r', result) = resolve_for model_id id now done outcome between r in
        (result ≡ answer model_id id (get r'.discovery_cache id))
        × ((a' : Adapter A) × (get_adapter r' id ≡ some a'))
  unfolding resolve_for store get_adapter
  resolve_for-kept model_id id now done outcome between r a h =
      elim (Bool-cases (is_stale now (get r.discovery_cache id))) [
        | inl stale ↦ rw stale (refl, run-get_adapter between r id a h)
        | inr fresh ↦ rw fresh (refl, (a, h))
      ]

  resolve_refused :
      (model_id id : String) (now done : ℕ) (outcome : Discovered) (between : List (Event A))
      (r : ProviderRegistry A)
      → before_slash model_id ≡ some id
      → get_adapter r id ≡ none
      → resolve model_id now done outcome between r ≡ (r, err (no_provider id))
  unfolding resolve provider_of
  resolve_refused model_id id now done outcome between r named missing =
      rw (named, missing, resolve) refl

  resolve_named :
      (model_id id : String) (now done : ℕ) (outcome : Discovered) (between : List (Event A))
      (r : ProviderRegistry A) (a : Adapter A)
      → before_slash model_id ≡ some id
      → get_adapter r id ≡ some a
      → resolve model_id now done outcome between r
        ≡ resolve_for model_id id now done outcome between r
  unfolding resolve provider_of
  resolve_named model_id id now done outcome between r a named there =
      rw (named, there, resolve) refl

  -- A model that is resolved again, at most 30 seconds after the discovery that the cache then holds
  -- of its provider, gets the same answer, be it a model or an error, and the registry stays as it is:
  -- whatever a new discovery would find, the provider is not asked.
  pub resolve_again :
      (model_id id : String) (now done later ended : ℕ) (outcome outcome' : Discovered)
      (between between' : List (Event A)) (r : ProviderRegistry A) (c : CachedDiscovery)
      → before_slash model_id ≡ some id
      → get (resolve model_id now done outcome between r).0.discovery_cache id ≡ some c
      → later ≤ c.timestamp + 30000
      → resolve model_id later ended outcome' between'
          (resolve model_id now done outcome between r).0
        ≡ resolve model_id now done outcome between r
  resolve_again model_id id now done later ended outcome outcome' between between' r c named held
        h =
      elim (Option-cases (get_adapter r id)) [
        | inl missing ↦
            let e = resolve_refused model_id id now done outcome between r named missing in
            ap (λ q. resolve model_id later ended outcome' between' q.0) e
            ∙ resolve_refused model_id id later ended outcome' between' r named missing
            ∙ sym e
        | inr (a, there) ↦
            let e = resolve_named model_id id now done outcome between r a named there in
            let first = resolve_for model_id id now done outcome between r in
            let (same, (a', kept)) =
              resolve_for-kept model_id id now done outcome between r a there in
            let cached_again : get first.0.discovery_cache id ≡ some c =
              subst
                (λ (q : ProviderRegistry A × Result DiscoveredModel).
                  get q.0.discovery_cache id ≡ some c)
                e held in
            ap (λ q. resolve model_id later ended outcome' between' q.0) e
            ∙ resolve_named model_id id later ended outcome' between' first.0 a' named kept
            ∙ fresh_answer model_id id later ended outcome' between' first.0 c cached_again h
            ∙ ap (λ answered. (first.0, answered)) (sym same)
            ∙ sym e
      ]
