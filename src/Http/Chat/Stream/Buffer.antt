-- ===== src/Http/Chat/Stream/Buffer.antt =====
-- src/http/openai-chat.ts: the buffer of tool calls of the stream, against
-- the one of the aggregation.

use Prim.Native.String.{String}
use text.Mathlib.TextLemmas.{append-nil}
use cmm_routers.Prelude.{
  ℕ, false, Option, none, some, [], ◌∷◌, string_eq, nat_eq, ◌==◌, get_or_else, ◌≡◌, refl, arith,
  Bool-cases, Option-cases, inl, inr, eq_of_==, sym, ap, ==_ne,
}
use cmm_routers.Prelude.OrderedMap.{OrderedMap, get, put}
use cmm_routers.Http.Chat.Aggregate.{
  PendingCall, existing_call, extended_call, renamed, extended, values,
}
use cmm_routers.Http.Chat.Stream.{appended, buffer_delta}

abbrev pub HasName : Option String → Type 0
HasName none = Unit
HasName (some name) = (name == "") ≡ false

extended-eq-appended :
    (delta : Option String) (old : String) → extended delta old ≡ appended old delta
extended-eq-appended none old = refl
extended-eq-appended (some delta) old = elim (Bool-cases (delta == "")) [
  | inl empty ↦ rw empty (rw (eq_of_== delta "" empty) (sym (append-nil old)))
  | inr full ↦ rw full refl
]

renamed_lem :
    (name : Option String) (old : String) → HasName name → renamed name old ≡ get_or_else name old
renamed_lem none old h = refl
renamed_lem (some name) old h = rw h refl

-- the buffer of the stream, from the one of the aggregation
abbrev pub rekey : OrderedMap String PendingCall → OrderedMap ℕ PendingCall
rekey [] = []
rekey ((id, c) ∷ m) = (c.index, c) ∷ rekey m

pub values-rekey : (m : OrderedMap String PendingCall) → values (rekey m) ≡ values m
values-rekey [] = refl
values-rekey ((id, c) ∷ m) = ap (λ vs. c ∷ vs) (values-rekey m)

module _ (index_of : String → ℕ) (id_of : ℕ → String) where
  abbrev pub IsKeyed : OrderedMap String PendingCall → Type 0
  IsKeyed [] = Unit
  IsKeyed ((id, c) ∷ m) = (c.id ≡ id) × (index_of id ≡ c.index) × (id_of c.index ≡ id) × IsKeyed m

  same_key :
      (k id : String) (i index : ℕ)
      → index_of k ≡ i
      → id_of i ≡ k
      → index_of id ≡ index
      → id_of index ≡ id
      → (i == index) ≡ (k == id)
  same_key k id i index a b c d = elim (Bool-cases (k == id)) [
    | inl same ↦
        let e : k ≡ id = eq_of_== k id same in
        let e' : i ≡ index = cc in rw same ((nat_eq.beq_iff i index).1 e')
    | inr other ↦
        rw other
          (==_ne i index (λ p. let q : k ≡ id = cc in cc (other, (string_eq.beq_iff k id).1 q)))
  ]

  get-rekey :
      (m : OrderedMap String PendingCall) (id : String) (index : ℕ)
      → IsKeyed m
      → index_of id ≡ index
      → id_of index ≡ id
      → get (rekey m) index ≡ get m id
  unfolding get
  get-rekey [] id index h a b = refl
  get-rekey ((k, c) ∷ m) id index h a b =
      rw (same_key k id c.index index h.1 h.2 a b, get-rekey m id index h.3 a b) refl

  put-rekey :
      (m : OrderedMap String PendingCall) (id : String) (new : PendingCall)
      → IsKeyed m
      → index_of id ≡ new.index
      → id_of new.index ≡ id
      → put (rekey m) new.index new ≡ rekey (put m id new)
  unfolding put
  put-rekey [] id new h a b = refl
  put-rekey ((k, c) ∷ m) id new h a b = elim (Bool-cases (k == id)) [
    | inl same ↦ rw (same_key k id c.index new.index h.1 h.2 a b, same) refl
    | inr other ↦
        rw (same_key k id c.index new.index h.1 h.2 a b, other)
          (rw (put-rekey m id new h.3 a b) refl)
  ]

  pub put-IsKeyed :
      (m : OrderedMap String PendingCall) (id : String) (new : PendingCall)
      → IsKeyed m
      → new.id ≡ id
      → index_of id ≡ new.index
      → id_of new.index ≡ id
      → IsKeyed (put m id new)
  unfolding put
  put-IsKeyed [] id new h e a b = (e, a, b, tt)
  put-IsKeyed ((k, c) ∷ m) id new h e a b = elim (Bool-cases (k == id)) [
    | inl same ↦ rw same (e, a, b, h.3)
    | inr other ↦ rw other (h.0, h.1, h.2, put-IsKeyed m id new h.3 e a b)
  ]

  IsKeyed-get :
      (m : OrderedMap String PendingCall) (id : String) (c : PendingCall)
      → IsKeyed m
      → get m id ≡ some c
      → (c.id ≡ id) × (index_of id ≡ c.index)
  unfolding get
  IsKeyed-get [] id c h found = cc
  IsKeyed-get ((k, d) ∷ m) id c h found = elim (Bool-cases (k == id)) [
    | inl same ↦
        let e : k ≡ id = eq_of_== k id same in
        let e' : d ≡ c = ground (arith, found, same) in (cc (h.0, e, e'), cc (h.1, e, e'))
    | inr other ↦ IsKeyed-get m id c h.3 (ground (arith, found, other))
  ]

  pub existing-IsKeyed :
      (m : OrderedMap String PendingCall) (index : ℕ) (id : String) (name : Option String)
      → IsKeyed m
      → index_of id ≡ index
      → let existing = existing_call (get m id) index id name in
        (existing.id ≡ id) × (existing.index ≡ index)
  existing-IsKeyed m index id name h a = elim (Option-cases (get m id)) [
    | inl new ↦ rw new (refl, refl)
    | inr (c, old) ↦ let (i, x) = IsKeyed-get m id c h old in rw old (i, cc)
  ]

  pub buffer_delta-rekey :
      (m : OrderedMap String PendingCall) (index : ℕ) (id : String) (name delta : Option String)
      → IsKeyed m
      → index_of id ≡ index
      → id_of index ≡ id
      → HasName name
      → let existing = existing_call (get m id) index id name in
        buffer_delta index id name delta (rekey m)
        ≡ rekey (put m id (extended_call index name delta existing))
  unfolding buffer_delta
  buffer_delta-rekey m index id name delta h a b n =
      let existing = existing_call (get m id) index id name in
      rw
        (
          get-rekey m id index h a b,
          (existing-IsKeyed m index id name h a).1,
          ← renamed_lem name existing.name n,
          ← extended-eq-appended delta existing.arguments,
        )
        (put-rekey m id (extended_call index name delta existing) h a b)
