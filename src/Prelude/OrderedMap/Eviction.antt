-- ===== src/Prelude/OrderedMap/Eviction.antt =====
-- while (m.size > limit) m.delete(oldest)
use Prim.Native.Nat.{ℕ, ◌≤◌, ◌<◌}
use mathlib.Core.Path.{◌≡◌, refl}
use mathlib.Core.Option.{none, some}
use mathlib.Core.List.{List, [], ◌∷◌}
use native.Mathlib.Omega.{arith}
use cmm_routers.Prelude.Tests.{if◌then◌else◌, ltb}
use cmm_routers.Prelude.Equality.{Eq}
use cmm_routers.Prelude.Lists.{length}
use cmm_routers.Prelude.OrderedMap.{OrderedMap, get, put, get-put}

module _ {ℓ} {A : Type ℓ} where
  -- The oldest entry stands first, in a map as in an array.
  unfoldable pub trim : ℕ → List A → List A
  trim limit [] = []
  trim limit (x ∷ m) = let rest = trim limit m in if ltb limit (length (x ∷ m)) then rest else x ∷ m

  pub length-trim-le : (limit : ℕ) (m : List A) → length (trim limit m) ≤ limit
  unfolding trim
  length-trim-le limit [] = omega arith
  length-trim-le limit (x ∷ m) = ground (arith, length-trim-le limit m)

  pub trim_small : (limit : ℕ) (m : List A) → length m ≤ limit → trim limit m ≡ m
  unfolding trim
  trim_small limit [] h = refl
  trim_small limit (x ∷ m) h = ground arith

module _ {ℓ κ} {K : Type ℓ} {V : Type κ} ⦃e : Eq K⦄ where
  pub get-trim_none :
      (limit : ℕ) (m : OrderedMap K V) (k : K) → get m k ≡ none → get (trim limit m) k ≡ none
  unfolding trim get
  get-trim_none limit [] k h = refl
  get-trim_none limit ((j, v) ∷ m) k h = ground (arith, get-trim_none limit m k)

  -- the newest entry is kept
  pub get-trim-put :
      (limit : ℕ) (m : OrderedMap K V) (k : K) (v : V)
      → 0 < limit
      → get m k ≡ none
      → get (trim limit (put m k v)) k ≡ some v
  unfolding trim get put
  get-trim-put limit [] k v pos h = ground (arith, e.beq_iff k k)
  get-trim-put limit ((j, w) ∷ m) k v pos h =
      ground (arith, get-trim-put limit m k v, get-put m k k v, e.beq_iff k k, e.beq_iff j k)
