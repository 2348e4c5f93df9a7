-- ===== src/Http/Anthropic/Stream/Used.antt =====
-- src/http/anthropic-messages.ts: the indices of the content blocks that have been opened.
use Prim.Native.String.{String}
use cmm_routers.Prelude.{
  ℕ, suc, ◌≤◌, ◌<◌, false, Option, some, List, [], ◌∷◌, ◌++◌, nat_eq, ◌==◌, contains, ◌≡◌, refl,
  All, arith, Option-cases, inl, inr, ==_ne,
}
use cmm_routers.Prelude.OrderedMap.{get}
use cmm_routers.Http.Chat.Aggregate.{PendingCall, values}
use cmm_routers.Http.Anthropic.Stream.Indices.{
  Ascends, indices, IsRising, values-put_new, indices-put_old, on_delta-IsRising, below_suc,
}
use cmm_routers.Http.Anthropic.Stream.{Writer, on_delta, new_block, grown_block}

-- no block that waits for the end has an index of those opened
abbrev pub AreApart : List ℕ → List ℕ → Type 0
AreApart used waiting = All (λ i. contains used i ≡ false) waiting

-- each of the blocks takes an index that is not used before
abbrev pub AreFresh : List ℕ → List ℕ → Type 0
AreFresh used [] = Unit
AreFresh used (i ∷ waiting) = (contains used i ≡ false) × AreFresh (used ++ i ∷ []) waiting

-- After the indices `used` were opened: they are below the next one, and no tool block has one.
pub record IsWriter (used : List ℕ) (w : Writer) : Type 0 where
  pub rising : IsRising w.next_index w.tool_blocks
  pub below : All (λ i. i < w.next_index) used
  pub apart : AreApart used (indices (values w.tool_blocks))

pub below_is_new :
    (used : List ℕ) (low index : ℕ)
    → All (λ i. i < low) used
    → low ≤ index
    → contains used index ≡ false
below_is_new [] low index h le = refl
below_is_new (i ∷ used) low index h le =
    rw (==_ne i index (λ e. absurd (omega (arith, e, h.0)))) (below_is_new used low index h.1 le)

pub All-append_one :
    (used : List ℕ) (low index : ℕ)
    → All (λ i. i < low) used
    → low ≤ index
    → All (λ i. i < suc index) (used ++ index ∷ [])
All-append_one [] low index h le = (omega arith, tt)
All-append_one (i ∷ used) low index h le =
    (omega (arith, h.0), All-append_one used low index h.1 le)

contains-append_one :
    (used : List ℕ) (index i : ℕ)
    → contains used i ≡ false
    → (index == i) ≡ false
    → contains (used ++ index ∷ []) i ≡ false
contains-append_one [] index i h other = rw other refl
contains-append_one (j ∷ used) index i h other =
    let rest = contains-append_one used index i (ground (arith, h)) other in ground (arith, h, rest)

-- an index at the end of those used is below all that wait
apart_below :
    (used waiting : List ℕ) (index low : ℕ)
    → index < low
    → Ascends low waiting
    → AreApart used waiting
    → AreApart (used ++ index ∷ []) waiting
apart_below used [] index low lt a h = tt
apart_below used (i ∷ waiting) index low lt a h = (
  contains-append_one used index i h.0 (==_ne index i (λ e. absurd (omega (arith, e, lt, a.0)))),
  apart_below used waiting index (suc i) (omega (arith, lt, a.0)) a.1 h.1,
)

-- or above them
apart_above :
    (used waiting : List ℕ) (index : ℕ)
    → All (λ i. i < index) waiting
    → AreApart used waiting
    → AreApart (used ++ index ∷ []) waiting
apart_above used [] index b h = tt
apart_above used (i ∷ waiting) index b h = (
  contains-append_one used index i h.0 (==_ne index i (λ e. absurd (omega (arith, e, b.0)))),
  apart_above used waiting index b.1 h.1,
)

pub apart-AreFresh :
    (used waiting : List ℕ) (low : ℕ)
    → Ascends low waiting
    → AreApart used waiting
    → AreFresh used waiting
apart-AreFresh used [] low a h = tt
apart-AreFresh used (i ∷ waiting) low a h = (
  h.0,
  apart-AreFresh (used ++ i ∷ []) waiting (suc i) a.1
      (apart_below used waiting i (suc i) (omega arith) a.1 h.1),
)

apart-append :
    (used : List ℕ) (blocks : List PendingCall) (b : PendingCall)
    → contains used b.index ≡ false
    → AreApart used (indices blocks)
    → AreApart used (indices (blocks ++ b ∷ []))
apart-append used [] b new h = (new, tt)
apart-append used (c ∷ blocks) b new h = (h.0, apart-append used blocks b new h.1)

-- a text block takes the next index
pub on_text-IsWriter :
    (used : List ℕ) (w : Writer)
    → IsWriter used w
    → IsWriter
        (used ++ w.next_index ∷ [])
        (record w { next_index = suc w.next_index; text_index = some w.next_index })
on_text-IsWriter used w h = record {
  rising = (h.rising.0, below_suc (indices (values w.tool_blocks)) w.next_index h.rising.1);
  below = All-append_one used w.next_index w.next_index h.below (omega arith);
  apart = apart_above used (indices (values w.tool_blocks)) w.next_index h.rising.1 h.apart;
}

pub on_delta-IsWriter :
    (used : List ℕ) (w : Writer) (key : ℕ) (id : String) (name delta : Option String)
    → IsWriter used w
    → IsWriter used (on_delta (get w.tool_blocks key) key id name delta w)
unfolding on_delta
on_delta-IsWriter used w key id name delta h =
    let rising = on_delta-IsRising w key id name delta h.rising in
    elim (Option-cases (get w.tool_blocks key)) [
      | inl new ↦
          let b = new_block w.next_index id name delta in
          let first = below_is_new used w.next_index w.next_index h.below (omega arith) in
          record {
            rising = rising;
            below = rw new (below_suc used w.next_index h.below);
            apart =
                rw (new, values-put_new w.tool_blocks key b new)
                  (apart-append used (values w.tool_blocks) b first h.apart);
          }
      | inr (old, found) ↦ record {
        rising = rising;
        below = rw found h.below;
        apart =
            rw (found, indices-put_old w.tool_blocks key old (grown_block delta old) found refl)
              h.apart;
      }
    ]
