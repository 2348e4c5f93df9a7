-- ===== src/Http/Anthropic/Stream/Indices.antt =====
-- src/http/anthropic-messages.ts: the indices of the buffered tool blocks.
use Prim.Native.String.{String}
use cmm_routers.Prelude.{
  ℕ, suc, ◌≤◌, ◌<◌, Option, none, some, List, [], ◌∷◌, ◌++◌, string_eq, nat_eq, ◌==◌, map, ◌≡◌,
  refl, All, arith, Bool-cases, Option-cases, inl, inr, sym, ap, ◌∙◌,
}
use cmm_routers.Prelude.OrderedMap.{OrderedMap, get, put}
use cmm_routers.Http.Chat.Aggregate.{PendingCall, sort_calls, insert_call, values}
use cmm_routers.Http.Anthropic.Stream.{Writer, on_delta, new_block, grown_block}

-- Indices in rising order, from `low` on.
abbrev pub Ascends : ℕ → List ℕ → Type 0
Ascends low [] = Unit
Ascends low (i ∷ indices) = (low ≤ i) × Ascends (suc i) indices

abbrev pub indices : List PendingCall → List ℕ
indices blocks = map (λ b. b.index) blocks

-- The tool blocks have rising indices below the next one.
abbrev pub IsRising : ℕ → OrderedMap ℕ PendingCall → Type 0
IsRising next m = Ascends 0 (indices (values m)) × All (λ i. i < next) (indices (values m))

insert_first :
    (c : PendingCall) (calls : List PendingCall)
    → Ascends (suc c.index) (indices calls)
    → insert_call c calls ≡ c ∷ calls
unfolding insert_call
insert_first c [] h = refl
insert_first c (d ∷ calls) h = ground (arith, h.0)

pub sort_rising :
    (calls : List PendingCall) (low : ℕ) → Ascends low (indices calls) → sort_calls calls ≡ calls
unfolding sort_calls
sort_rising [] low h = refl
sort_rising (c ∷ calls) low h = rw (sort_rising calls (suc c.index) h.1) (insert_first c calls h.1)

pub values-put_new :
    (m : OrderedMap ℕ PendingCall) (key : ℕ) (b : PendingCall)
    → get m key ≡ none
    → values (put m key b) ≡ values m ++ b ∷ []
unfolding get put
values-put_new [] key b h = refl
values-put_new ((k, c) ∷ m) key b h = elim (Bool-cases (k == key)) [
  | inl same ↦ absurd (ground (arith, same, h))
  | inr other ↦ rw other (ap (λ vs. c ∷ vs) (values-put_new m key b (ground (arith, other, h))))
]

pub indices-put_old :
    (m : OrderedMap ℕ PendingCall) (key : ℕ) (old new : PendingCall)
    → get m key ≡ some old
    → new.index ≡ old.index
    → indices (values (put m key new)) ≡ indices (values m)
unfolding get put
indices-put_old [] key old new h e = cc
indices-put_old ((k, c) ∷ m) key old new h e = elim (Bool-cases (k == key)) [
  | inl same ↦
      let e' : c ≡ old = ground (arith, same, h) in
      rw same (ap (λ i. i ∷ indices (values m)) (e ∙ ap (λ (b : PendingCall). b.index) (sym e')))
  | inr other ↦
      rw other
        (ap (λ is. c.index ∷ is) (indices-put_old m key old new (ground (arith, other, h)) e))
]

pub Ascends-append :
    (blocks : List PendingCall) (b : PendingCall) (low : ℕ)
    → Ascends low (indices blocks)
    → All (λ i. i < b.index) (indices blocks)
    → low ≤ b.index
    → Ascends low (indices (blocks ++ b ∷ []))
Ascends-append [] b low a h le = (le, tt)
Ascends-append (c ∷ blocks) b low a h le =
    (a.0, Ascends-append blocks b (suc c.index) a.1 h.1 (omega (arith, h.0)))

pub below_next :
    (blocks : List PendingCall) (b : PendingCall) (next : ℕ)
    → All (λ i. i < next) (indices blocks)
    → b.index ≡ next
    → All (λ i. i < suc next) (indices (blocks ++ b ∷ []))
below_next [] b next h e = (omega (arith, e), tt)
below_next (c ∷ blocks) b next h e = (omega (arith, h.0), below_next blocks b next h.1 e)

pub below_suc : (live : List ℕ) (next : ℕ) → All (λ i. i < next) live → All (λ i. i < suc next) live
below_suc [] next h = tt
below_suc (i ∷ live) next h = (omega (arith, h.0), below_suc live next h.1)

pub on_delta-IsRising :
    (w : Writer) (key : ℕ) (id : String) (name delta : Option String)
    → IsRising w.next_index w.tool_blocks
    → let w' = on_delta (get w.tool_blocks key) key id name delta w in
      IsRising w'.next_index w'.tool_blocks
unfolding on_delta
on_delta-IsRising w key id name delta h = elim (Option-cases (get w.tool_blocks key)) [
  | inl new ↦
      let blocks = values w.tool_blocks in
      let b = new_block w.next_index id name delta in
      rw (new, values-put_new w.tool_blocks key b new)
        (Ascends-append blocks b 0 h.0 h.1 (omega arith), below_next blocks b w.next_index h.1 refl)
  | inr (old, found) ↦
      rw (found, indices-put_old w.tool_blocks key old (grown_block delta old) found refl) h
]
