-- ===== src/Core/Broker/Waiting.antt =====
-- How often a promise has been settled, and how often it waits at an entry.
use text.Mathlib.TextEquality.{eq_iff}
use cmm_routers.Prelude.{
  ℕ, suc, ◌+◌, String, ◌≡◌, refl, none, some, List, [], ◌∷◌, ◌++◌, arith, string_eq, nat_eq, ◌==◌,
  if◌then◌else◌, map,
}
use cmm_routers.Prelude.OrderedMap.{OrderedMap, get, put, remove}
use cmm_routers.Prelude.OrderedMap.Distinct.{IsDistinct}
use cmm_routers.Core.Broker.State.{Settlement, Entry}

-- how often a promise stands in a list
abbrev pub occurrences : ℕ → List ℕ → ℕ
occurrences w [] = 0
occurrences w (v ∷ vs) = if v == w then suc (occurrences w vs) else occurrences w vs

pub occurrences-append :
    (w : ℕ) (vs us : List ℕ) → occurrences w (vs ++ us) ≡ occurrences w vs + occurrences w us
occurrences-append w [] us = omega arith
occurrences-append w (v ∷ vs) us = ground (arith, occurrences-append w vs us)

abbrev pub settled_times : {C R : Type 0} → ℕ → List (ℕ × Settlement C R) → ℕ
settled_times w [] = 0
settled_times w ((v, s) ∷ rest) =
    if v == w then suc (settled_times w rest) else settled_times w rest

pub settled_times-append :
    {C R : Type 0} (w : ℕ) (xs : List (ℕ × Settlement C R)) (vs : List ℕ) (s : Settlement C R)
    → settled_times w (xs ++ map (λ v. (v, s)) vs) ≡ settled_times w xs + occurrences w vs
settled_times-append w [] [] s = omega arith
settled_times-append w [] (v ∷ vs) s = ground (arith, settled_times-append w [] vs s)
settled_times-append w ((v, t) ∷ xs) vs s = ground (arith, settled_times-append w xs vs s)

abbrev pub waiting_times : {C : Type 0} → ℕ → OrderedMap String (Entry C) → ℕ
waiting_times w [] = 0
waiting_times w ((id, entry) ∷ rest) = occurrences w entry.waiters + waiting_times w rest

module _ {C : Type 0} (w : ℕ) where
  remove_absent : (m : OrderedMap String (Entry C)) (k : String) → get m k ≡ none → remove m k ≡ m
  unfolding get remove
  remove_absent [] k h = refl
  remove_absent ((j, e) ∷ m) k h = ground (arith, remove_absent m k)

  pub waiting_times-remove :
      (m : OrderedMap String (Entry C)) (k : String) (entry : Entry C)
      → IsDistinct m
      → get m k ≡ some entry
      → waiting_times w m ≡ occurrences w entry.waiters + waiting_times w (remove m k)
  unfolding get remove
  waiting_times-remove [] k entry d h = cc
  waiting_times-remove ((j, e) ∷ m) k entry d h =
      ground (arith, waiting_times-remove m k entry, remove_absent m k, eq_iff j k)

  pub waiting_times-put_new :
      (m : OrderedMap String (Entry C)) (k : String) (entry : Entry C)
      → get m k ≡ none
      → waiting_times w (put m k entry) ≡ waiting_times w m + occurrences w entry.waiters
  unfolding get put
  waiting_times-put_new [] k entry h = omega arith
  waiting_times-put_new ((j, e) ∷ m) k entry h = ground (arith, waiting_times-put_new m k entry)

  pub waiting_times-put_old :
      (m : OrderedMap String (Entry C)) (k : String) (old entry : Entry C)
      → get m k ≡ some old
      → waiting_times w (put m k entry) + occurrences w old.waiters
        ≡ waiting_times w m + occurrences w entry.waiters
  unfolding get put
  waiting_times-put_old [] k old entry h = cc
  waiting_times-put_old ((j, e) ∷ m) k old entry h =
      ground (arith, waiting_times-put_old m k old entry)
