-- ===== src/Prelude/OrderedMap.antt =====
-- The language's `Map`: an association list in insertion order.
pub mod Distinct
pub mod Eviction
use Prim.Native.Nat.{ℕ, suc, ◌+◌, ◌≤◌}
use mathlib.Core.Path.{◌≡◌, refl}
use mathlib.Core.Bool.{Bool, true, false}
use mathlib.Core.Option.{Option, none, some}
use mathlib.Core.List.{List, [], ◌∷◌, map}
use native.Mathlib.Omega.{arith}
use cmm_routers.Prelude.Tests.{if◌then◌else◌, is_some}
use cmm_routers.Prelude.Equality.{Eq, ◌==◌}
use cmm_routers.Prelude.Lists.{length}

abbrev pub OrderedMap {ℓ κ} : Type ℓ → Type κ → Type (ℓ ⊔ κ)
OrderedMap K V = List (K × V)

module _ {ℓ κ} {K : Type ℓ} {V : Type κ} ⦃e : Eq K⦄ where
  -- m.get(k)
  unfoldable pub get : OrderedMap K V → K → Option V
  get [] k = none
  get ((j, v) ∷ m) k = if j == k then some v else get m k

  -- m.set(k, v): an old key keeps its place, a new one goes to the end
  unfoldable pub put : OrderedMap K V → K → V → OrderedMap K V
  put [] k v = (k, v) ∷ []
  put ((j, w) ∷ m) k v = if j == k then (k, v) ∷ m else (j, w) ∷ put m k v

  -- m.delete(k)
  unfoldable pub remove : OrderedMap K V → K → OrderedMap K V
  remove [] k = []
  remove ((j, v) ∷ m) k = let rest = remove m k in if j == k then rest else (j, v) ∷ rest

  -- m.has(k)
  abbrev pub has : OrderedMap K V → K → Bool
  has m k = is_some (get m k)

  pub get-put :
      (m : OrderedMap K V) (k j : K) (v : V)
      → get (put m k v) j ≡ (if k == j then some v else get m j)
  unfolding get put
  get-put [] k j v = refl
  get-put ((i, w) ∷ m) k j v =
      ground (arith, e.beq_iff k j, e.beq_iff i k, e.beq_iff i j, get-put m k j v)

  pub get-remove :
      (m : OrderedMap K V) (k j : K) → get (remove m k) j ≡ (if k == j then none else get m j)
  unfolding get remove
  get-remove [] k j = ground arith
  get-remove ((i, w) ∷ m) k j =
      ground (arith, e.beq_iff k j, e.beq_iff i k, e.beq_iff i j, get-remove m k j)

  pub length-put :
      (m : OrderedMap K V) (k : K) (v : V)
      → length (put m k v) ≡ (if has m k then length m else suc (length m))
  unfolding get put
  length-put [] k v = refl
  length-put ((i, w) ∷ m) k v = ground (arith, length-put m k v)

  pub length-remove-le : (m : OrderedMap K V) (k : K) → length (remove m k) ≤ length m
  unfolding remove
  length-remove-le [] k = omega arith
  length-remove-le ((i, w) ∷ m) k = ground (arith, length-remove-le m k)

  -- a key that is there goes, and the size falls
  pub length-remove-lt :
      (m : OrderedMap K V) (k : K) (v : V) → get m k ≡ some v → suc (length (remove m k)) ≤ length m
  unfolding get remove
  length-remove-lt [] k v h = cc
  length-remove-lt ((i, w) ∷ m) k v h = ground (arith, length-remove-lt m k v, length-remove-le m k)

pub ruleset map_laws = (get-put, get-remove)
