-- ===== src/Prelude/OrderedMap/Distinct.antt =====
-- Maps whose keys are distinct, as every map is that `put` and `remove` have built, and the search
-- for the key of a value.
use mathlib.Core.Path.{◌≡◌, refl}
use mathlib.Core.Logic.{◌≢◌, inl, inr}
use mathlib.Core.Option.{Option, none, some}
use mathlib.Core.List.{[], ◌∷◌}
use native.Mathlib.Omega.{arith}
use cmm_routers.Prelude.Tests.{if◌then◌else◌, Bool-cases}
use cmm_routers.Prelude.Equality.{Eq, ◌==◌}
use cmm_routers.Prelude.OrderedMap.{OrderedMap, get, put, remove, get-put, get-remove}

module _ {ℓ κ} {K : Type ℓ} {V : Type κ} ⦃e : Eq K⦄ where
  abbrev pub IsDistinct : OrderedMap K V → Type κ
  IsDistinct [] = Unit
  IsDistinct ((k, v) ∷ m) = (get m k ≡ none) × IsDistinct m

  pub put-IsDistinct : (m : OrderedMap K V) (k : K) (v : V) → IsDistinct m → IsDistinct (put m k v)
  unfolding put get
  put-IsDistinct [] k v d = (refl, tt)
  put-IsDistinct ((j, w) ∷ m) k v d = elim (Bool-cases (j == k)) [
    | inl same ↦ rw same (ground (arith, e.beq_iff j k))
    | inr other ↦
        rw other
          (ground (arith, get-put m k j v, e.beq_iff k j, e.beq_iff j k, put-IsDistinct m k v))
  ]

  pub remove-IsDistinct : (m : OrderedMap K V) (k : K) → IsDistinct m → IsDistinct (remove m k)
  unfolding remove
  remove-IsDistinct [] k d = tt
  remove-IsDistinct ((j, w) ∷ m) k d = elim (Bool-cases (j == k)) [
    | inl same ↦ rw same (remove-IsDistinct m k d.1)
    | inr other ↦ rw other (ground (arith, get-remove m k j, remove-IsDistinct m k))
  ]

module _ {ℓ κ} {K : Type ℓ} {V : Type κ} ⦃v : Eq V⦄ where
  -- for (const [key, mapped] of m) if (mapped === value) …: the first such key
  unfoldable pub find_key : OrderedMap K V → V → Option K
  find_key [] value = none
  find_key ((k, mapped) ∷ m) value = if mapped == value then some k else find_key m value

module _ {ℓ κ} {K : Type ℓ} {V : Type κ} ⦃e : Eq K⦄ ⦃v : Eq V⦄ where
  pub get_of_find_key :
      (m : OrderedMap K V) (value : V) (k : K)
      → IsDistinct m
      → find_key m value ≡ some k
      → get m k ≡ some value
  unfolding find_key get
  get_of_find_key [] value k d h = cc
  get_of_find_key ((j, w) ∷ m) value k d h =
      ground (arith, v.beq_iff w value, e.beq_iff j k, get_of_find_key m value k)

  pub find_key_none :
      (m : OrderedMap K V) (value : V) (k : K) → find_key m value ≡ none → get m k ≢ some value
  unfolding find_key get
  find_key_none [] value k h = cc
  find_key_none ((j, w) ∷ m) value k h = ground (arith, v.beq_iff w value, find_key_none m value k)
