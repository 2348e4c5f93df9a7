-- ===== src/Core/ToolAccess/NameSet.antt =====
-- `new Set(names)`: its elements in the order in which they were first inserted.
use text.Mathlib.TextEquality.{eq_iff}
use cmm_routers.Prelude.{
  ◌≤◌, String, ◌≡◌, refl, false, not, ◌&&◌, List, [], ◌∷◌, ◌==◌, string_eq, length, contains, arith,
  if◌then◌else◌,
}

unfoldable pub without : String → List String → List String
without name [] = []
without name (x ∷ xs) = let rest = without name xs in if x == name then rest else x ∷ rest

unfoldable pub to_set : List String → List String
unfolding without
to_set [] = []
to_set (name ∷ names) = name ∷ without name (to_set names)

contains-without :
    (name x : String) (xs : List String)
    → contains (without name xs) x ≡ (contains xs x && not (name == x))
unfolding without
contains-without name x [] = refl
contains-without name x (y ∷ ys) =
    ground (arith, contains-without name x ys, eq_iff y name, eq_iff y x, eq_iff name x)

-- `has` of the set is membership of the list
pub contains-to_set :
    (names : List String) (x : String) → contains (to_set names) x ≡ contains names x
unfolding to_set
contains-to_set [] x = refl
contains-to_set (name ∷ names) x =
    ground (arith, contains-to_set names x, contains-without name x (to_set names))

length-without-le : (name : String) (xs : List String) → length (without name xs) ≤ length xs
unfolding without
length-without-le name [] = omega arith
length-without-le name (x ∷ xs) = ground (arith, length-without-le name xs)

pub length-to_set-le : (names : List String) → length (to_set names) ≤ length names
unfolding to_set
length-to_set-le [] = omega arith
length-to_set-le (name ∷ names) =
    omega (arith, length-to_set-le names, length-without-le name (to_set names))

-- no name stands twice
abbrev pub IsUnique : List String → Type 0
IsUnique [] = Unit
IsUnique (name ∷ names) = (contains names name ≡ false) × IsUnique names

length-without_absent :
    (name : String) (xs : List String)
    → length (without name xs) ≡ length xs
    → contains xs name ≡ false
unfolding without
length-without_absent name [] h = refl
length-without_absent name (x ∷ xs) h =
    ground (arith, length-without_absent name xs, length-without-le name xs)

-- a set as large as its list shows that no name stands twice
pub IsUnique-of_length :
    (names : List String) → length (to_set names) ≡ length names → IsUnique names
unfolding to_set
IsUnique-of_length [] h = tt
IsUnique-of_length (name ∷ names) h = (
  ground (
    arith,
    contains-to_set names name,
    length-without_absent name (to_set names),
    length-without-le name (to_set names),
    length-to_set-le names,
  ),
  IsUnique-of_length names
      (omega (arith, h, length-to_set-le names, length-without-le name (to_set names))),
)
