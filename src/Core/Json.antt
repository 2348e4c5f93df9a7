-- ===== src/Core/Json.antt =====
-- A value of type `unknown` as it comes from `JSON.parse`. A number that is a natural one is `num`;
-- any other is kept as its text. An object lists its own enumerable properties in their order.
pub mod Equality
use cmm_routers.Prelude.{
  ℕ, String, Bool, true, false, Option, none, some, List, [], ◌∷◌, ◌==◌, string_eq, nat_eq,
  if◌then◌else◌,
}

mutual
  pub data Json : Type 0 where
    null : Json
    bool : Bool → Json
    num : ℕ → Json
    decimal : String → Json
    str : String → Json
    arr : Items → Json
    obj : Fields → Json

  pub data Items : Type 0 where
    nil : Items
    cons : Json → Items → Items

  pub data Fields : Type 0 where
    end : Fields
    field : String → Json → Fields → Fields

-- value[key]; a missing key is `undefined`, which is `none`
abbrev pub prop : Fields → String → Option Json
prop end k = none
prop (field j v fs) k = if j == k then some v else prop fs k

-- Object.keys(value)
abbrev pub keys : Fields → List String
keys end = []
keys (field k v fs) = k ∷ keys fs

-- `typeof v === "string"`, with the string
abbrev pub as_string : Option Json → Option String
as_string (some (str s)) = some s
as_string _ = none

-- a string that is not empty
abbrev pub as_filled : Option Json → Option String
as_filled (some (str s)) = if s == "" then none else some s
as_filled _ = none

-- `isRecord(v)`, with the object; `null` and an array are no records
abbrev pub as_record : Option Json → Option Fields
as_record (some (obj fs)) = some fs
as_record _ = none

-- `v === s` for a string `s`
abbrev pub is_str : Option Json → String → Bool
is_str (some (str t)) s = t == s
is_str _ s = false

-- `v === n` for a natural number `n`
abbrev pub is_num : Option Json → ℕ → Bool
is_num (some (num m)) n = m == n
is_num _ n = false

-- `v === b` for a Boolean `b`
abbrev pub is_bool : Option Json → Bool → Bool
is_bool (some (bool true)) true = true
is_bool (some (bool false)) false = true
is_bool _ b = false

-- `typeof v === "object" && v !== null`, which an array is too
abbrev pub as_object : Option Json → Option Json
as_object (some (obj fs)) = some (obj fs)
as_object (some (arr xs)) = some (arr xs)
as_object _ = none

-- v?.[key]; an array has no property of that name
abbrev pub prop? : Option Json → String → Option Json
prop? (some (obj fs)) k = prop fs k
prop? _ k = none

-- the elements of an array
abbrev pub elements : Items → List Json
elements nil = []
elements (cons x xs) = x ∷ elements xs

-- `Array.isArray(v)`, with the elements
abbrev pub as_array : Option Json → Option (List Json)
as_array (some (arr xs)) = some (elements xs)
as_array _ = none

-- `typeof v === "boolean"`, with its value
abbrev pub as_bool : Option Json → Option Bool
as_bool (some (bool b)) = some b
as_bool _ = none

-- `typeof v === "number"`, with the number
abbrev pub as_number : Option Json → Option Json
as_number (some (num n)) = some (num n)
as_number (some (decimal d)) = some (decimal d)
as_number _ = none

-- `v === null || v === undefined`
abbrev pub is_nullish : Option Json → Bool
is_nullish none = true
is_nullish (some null) = true
is_nullish _ = false
