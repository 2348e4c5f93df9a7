-- ===== src/Registry/Tests.antt =====
-- The registry on concrete discoveries.
use Prim.Native.String.{String}
use cmm_routers.Prelude.{arith, ℕ, ◌≡◌, refl, none, some, List, [], ◌∷◌, string_eq}
use cmm_routers.Prelude.OrderedMap.{get, put}
use cmm_routers.Core.Errors.{ok}
use cmm_routers.Core.Model.{DiscoveredModel, chatgpt, claude}
use cmm_routers.Registry.{
  CachedDiscovery, found, failed, Event, register, settled, new, run, step, store, resolve,
  resolve_for, provider_of, get_adapter, before_slash, answer, find_model, is_stale, Adapter, other,
}
use cmm_routers.Registry.Discovery.{used, latest, Lists, resolve-ok}
use cmm_routers.Registry.Caching.{resolve_again}

abbrev opus : DiscoveredModel
opus = record {
  id = "claude/opus";
  provider = claude;
  upstream_model = "opus";
  display_name = "Opus";
  capability = none;
}

abbrev history : List (Event ℕ)
history =
    register (record { id = claude; client = 1 })
    ∷ register (record { id = chatgpt; client = 2 })
    ∷ settled "claude" 100 (found (opus ∷ []))
    ∷ settled "chatgpt" 200 (failed (other "offline"))
    ∷ []

is_cached : (resolve "claude/opus" 500 900 (found []) [] (run history new)).1 ≡ ok opus
unfolding resolve resolve_for provider_of get_adapter before_slash answer find_model is_stale run
    step store new get put
is_cached = refl

-- after the time to live a new discovery answers, which no longer has the model
expires :
    (resolve "claude/opus" 30101 30200 (found []) [] (run history new)).1
    ≡ answer "claude/opus" "claude" (some (record { models = []; timestamp = 30200; error = none }))
unfolding resolve resolve_for provider_of get_adapter before_slash answer find_model is_stale run
    step store new get put
expires = refl

resolve-ok_example :
    (opus.id ≡ "claude/opus")
    × ((id : String) × (before_slash "claude/opus" ≡ some id)
        × ((a : Adapter ℕ) × (get_adapter (run history new) id ≡ some a))
        × Lists (used 500 900 (found []) (latest history id none)) opus)
resolve-ok_example = resolve-ok history "claude/opus" 500 900 (found []) [] opus is_cached

-- the discovery that the first call ran, since the cache was out of date
abbrev renewed : CachedDiscovery
renewed = record { models = opus ∷ []; timestamp = 40100; error = none }

is_named : before_slash "claude/opus" ≡ some "claude"
unfolding before_slash
is_named = refl

is_held :
    get
      (resolve "claude/opus" 40000 40100 (found (opus ∷ [])) [] (run history new)).0.discovery_cache
      "claude"
    ≡ some renewed
unfolding resolve resolve_for provider_of get_adapter before_slash answer find_model is_stale run
    step store new get put
is_held = refl

resolve_again_example :
    let first = resolve "claude/opus" 40000 40100 (found (opus ∷ [])) [] (run history new) in
    resolve "claude/opus" 70100 70200 (found []) [] first.0 ≡ first
resolve_again_example =
    resolve_again "claude/opus" "claude" 40000 40100 70100 70200 (found (opus ∷ [])) (found []) []
      [] (run history new) renewed is_named is_held (omega arith)
