-- ===== src/Registry.antt =====
-- src/registry/provider-registry.ts: the adapters of the Router and the models that they offer.
-- An adapter is its id with the client `A` behind it; what its discovery or its health check
-- answers is an input of the step that receives the answer.
pub mod Discovery
pub mod Caching
mod Tests
use Prim.Native.Char.{Char, code}
use Prim.Native.String
use Prim.Native.String.{String}
use cmm_routers.Prelude.{
  ℕ, ◌-◌, Bool, true, false, ◌||◌, Option, none, some, List, [], ◌∷◌, ◌++◌, ltb, string_eq, nat_eq,
  ◌==◌, if◌then◌else◌,
}
use cmm_routers.Prelude.OrderedMap.{OrderedMap, get, put}
use cmm_routers.Core.Json.{str}
use cmm_routers.Core.Errors.{
  RouterError, Result, ok, err, template, unknown_provider, unknown_model, provider_unavailable,
  ◌>>=◌,
}
use cmm_routers.Core.Model.{ProviderId, provider_text, DiscoveredModel}

-- An `Error`: one of the Router's own, or any other with its message.
pub data Failure : Type 0 where
  router : RouterError → Failure
  other : (message : String) → Failure

-- what `adapter.discoverModels()` settles with
pub data Discovered : Type 0 where
  found : List DiscoveredModel → Discovered
  failed : Failure → Discovered

pub record CachedDiscovery : Type 0 where
  pub models : List DiscoveredModel
  pub timestamp : ℕ
  pub error : Option Failure

pub record Adapter (A : Type 0) : Type 0 where
  pub id : ProviderId
  pub client : A

pub record ProviderRegistry (A : Type 0) : Type 0 where
  pub providers : OrderedMap String (Adapter A)
  pub discovery_cache : OrderedMap String CachedDiscovery

abbrev pub discovery_cache_ttl_ms : ℕ
discovery_cache_ttl_ms = 30000

-- the two object literals that a settled discovery is cached as
abbrev pub cached : ℕ → Discovered → CachedDiscovery
cached now (found models) = record { models = models; timestamp = now; error = none }
cached now (failed error) = record { models = []; timestamp = now; error = some error }

-- A discovery that `refresh` waits for settles.
pub data Event (A : Type 0) : Type 0 where
  register : Adapter A → Event A
  settled : (provider_id : String) (now : ℕ) → Discovered → Event A

unfoldable pub before_slash : String → Option String
before_slash String.[] = none
before_slash (String.◌∷◌ c s) =
    let rest = before_slash s in
    if code c == b'/' then some "" else elim rest [ none ↦ none | some p ↦ some (String.◌∷◌ c p) ]

abbrev not_found : String → String → RouterError
not_found model_id provider_id = record {
  code = unknown_model;
  message = template ("Model not found: " ∷ model_id ∷ []);
  meta = ("modelId", str model_id) ∷ ("provider", str provider_id) ∷ [];
}

abbrev invalid_format : String → RouterError
invalid_format model_id = record {
  code = unknown_provider;
  message = template ("Invalid model ID format: " ∷ model_id ∷ []);
  meta = ("modelId", str model_id) ∷ [];
}

abbrev pub no_provider : String → RouterError
no_provider provider_id = record {
  code = unknown_provider;
  message = template ("Unknown provider: " ∷ provider_id ∷ []);
  meta = ("providerId", str provider_id) ∷ [];
}

abbrev discovery_failure : String → Failure → RouterError
discovery_failure provider_id (router e) = e
discovery_failure provider_id (other message) = record {
  code = provider_unavailable;
  message = template ("Provider discovery failed: " ∷ provider_id ∷ []);
  meta = ("provider", str provider_id) ∷ ("error", str message) ∷ [];
}

-- models.find((m) => m.id === modelId)
unfoldable pub find_model : List DiscoveredModel → String → Option DiscoveredModel
find_model [] model_id = none
find_model (m ∷ models) model_id = if m.id == model_id then some m else find_model models model_id

-- Whether the cache no longer answers for a provider.
unfoldable pub is_stale : ℕ → Option CachedDiscovery → Bool
is_stale now none = true
is_stale now (some c) = ltb discovery_cache_ttl_ms (now - c.timestamp)

-- The answer of `resolve` from the cached discovery of the provider.
unfoldable pub answer : String → String → Option CachedDiscovery → Result DiscoveredModel
answer model_id provider_id none = err (not_found model_id provider_id)
answer model_id provider_id (some c) = elim c.error [
  | some e ↦ err (discovery_failure provider_id e)
  | none ↦ elim (find_model c.models model_id) [
    | none ↦ err (not_found model_id provider_id)
    | some model ↦ ok model
  ]
]

unfoldable pub all_models : OrderedMap String CachedDiscovery → List DiscoveredModel
all_models [] = []
all_models ((id, c) ∷ cache) = c.models ++ all_models cache

-- health reports
pub record ProviderHealth : Type 0 where
  pub status : String
  pub detail : Option String

-- what `adapter.health()` settles with; a failure is its message
pub data HealthCheck : Type 0 where
  reported : ProviderHealth → HealthCheck
  thrown : (message : String) → HealthCheck

abbrev pub health_of : HealthCheck → ProviderHealth
health_of (reported health) = health
health_of (thrown message) = record { status = "unavailable"; detail = some message }

-- the map that `getProviderHealth` returns, the checks given in the order in which they settle
unfoldable pub get_provider_health :
    List (String × HealthCheck)
    → OrderedMap String ProviderHealth
    → OrderedMap String ProviderHealth
get_provider_health [] map = map
get_provider_health ((id, check) ∷ checks) map =
    get_provider_health checks (put map id (health_of check))

module _ {A : Type 0} where
  unfoldable pub new : ProviderRegistry A
  new = record { providers = []; discovery_cache = [] }

  unfoldable pub get_adapter : ProviderRegistry A → String → Option (Adapter A)
  get_adapter r id = get r.providers id

  unfoldable pub store : String → ℕ → Discovered → ProviderRegistry A → ProviderRegistry A
  store id now outcome r = record r {
    discovery_cache = put r.discovery_cache id (cached now outcome);
  }

  unfoldable pub step : Event A → ProviderRegistry A → ProviderRegistry A
  unfolding store
  step (register a) r = record r { providers = put r.providers (provider_text a.id) a }
  step (settled id now outcome) r = store id now outcome r

  unfoldable pub run : List (Event A) → ProviderRegistry A → ProviderRegistry A
  run [] r = r
  run (e ∷ es) r = run es (step e r)

  -- the providers that `refresh` asks, in the order in which it asks them
  unfoldable pub asked : OrderedMap String (Adapter A) → List String
  asked [] = []
  asked ((id, a) ∷ providers) = id ∷ asked providers

  unfoldable pub list_models : ProviderRegistry A → List DiscoveredModel
  unfolding all_models
  list_models r = all_models r.discovery_cache

  -- The checks of `resolve` before it looks at the cache, with the provider that they find.
  unfoldable pub provider_of : String → ProviderRegistry A → Result String
  unfolding get_adapter
  provider_of model_id r = elim (before_slash model_id) [
    | none ↦ err (invalid_format model_id)
    | some id ↦ elim (get_adapter r id) [ none ↦ err (no_provider id) | some a ↦ ok id ]
  ]

  -- The rest of it: `between` is what happens while a discovery runs, which then settles at `done`
  -- with `outcome`.
  unfoldable pub resolve_for :
      (model_id provider_id : String) (now done : ℕ)
      → Discovered
      → List (Event A)
      → ProviderRegistry A
      → ProviderRegistry A × Result DiscoveredModel
  unfolding is_stale answer store run
  resolve_for model_id id now done outcome between r =
      if is_stale now (get r.discovery_cache id)
      then (let r' = store id done outcome (run between r) in
          (r', answer model_id id (get r'.discovery_cache id)))
      else (r, answer model_id id (get r.discovery_cache id))

  unfoldable pub resolve :
      String
      → (now done : ℕ) → Discovered
      → List (Event A)
      → ProviderRegistry A
      → ProviderRegistry A × Result DiscoveredModel
  unfolding provider_of resolve_for
  resolve model_id now done outcome between r = elim (provider_of model_id r) [
    | err e ↦ (r, err e)
    | ok id ↦ resolve_for model_id id now done outcome between r
  ]
