-- ===== src/Http/Responses/Stream/Taken.antt =====
-- src/http/openai-responses.ts: the output indices that are taken.

use Prim.Native.String.{String}
use cmm_routers.Prelude.{
  ℕ, suc, ◌<◌, false, Option, none, some, List, [], ◌∷◌, ◌++◌, string_eq, nat_eq, contains, ◌≡◌,
  ◌≢◌, refl, All, arith, Option-cases, inl, inr, ==_ne, sym,
}
use cmm_routers.Prelude.OrderedMap.{get}
use cmm_routers.Http.Chat.Aggregate.{PendingCall, values}
use cmm_routers.Http.Anthropic.Stream.Indices.{
  Ascends, indices, IsRising, values-put_new, indices-put_old, Ascends-append, below_next,
}
use cmm_routers.Http.Anthropic.Stream.Used.{AreFresh, below_is_new, All-append_one}
use cmm_routers.Http.Responses.Stream.{Writer, new_call, grown_call, on_delta}

-- The text item has an index below the next one, and no call has it.
abbrev pub IsApart : ℕ → Option ℕ → List ℕ → Type 0
IsApart next none calls = Unit
IsApart next (some index) calls = (index < next) × All (λ i. i ≢ index) calls

pub record IsWriter (w : Writer) : Type 0 where
  pub rising : IsRising w.next_index w.calls
  pub apart : IsApart w.next_index w.text_index (indices (values w.calls))

abbrev pub live_of : Option ℕ → List ℕ
live_of none = []
live_of (some index) = index ∷ []

-- after the text item and the calls `used`
pub fresh_after :
    (text_index : Option ℕ) (used calls : List ℕ) (low : ℕ)
    → All (λ i. i < low) used
    → Ascends low calls
    → All (λ i. contains (live_of text_index) i ≡ false) calls
    → AreFresh (live_of text_index ++ used) calls
fresh_after text_index used [] low h a f = tt
fresh_after none used (i ∷ calls) low h a f = (
  below_is_new used low i h a.0,
  fresh_after none (used ++ i ∷ []) calls (suc i) (All-append_one used low i h a.0) a.1 f.1,
)
fresh_after (some t) used (i ∷ calls) low h a f = (
  ground (arith, f.0, below_is_new used low i h a.0),
  fresh_after (some t) (used ++ i ∷ []) calls (suc i) (All-append_one used low i h a.0) a.1 f.1,
)

pub apart_is_fresh :
    (next : ℕ) (text_index : Option ℕ) (calls : List ℕ)
    → IsApart next text_index calls
    → All (λ i. contains (live_of text_index) i ≡ false) calls
apart_is_fresh next text_index [] h = tt
apart_is_fresh next none (i ∷ calls) h = (refl, apart_is_fresh next none calls tt)
apart_is_fresh next (some t) (i ∷ calls) h = (
  ground (arith, ==_ne t i (λ e. h.1.0 (sym e))),
  apart_is_fresh next (some t) calls (h.0, h.1.1),
)

IsApart-suc :
    (next : ℕ) (text_index : Option ℕ) (calls : List ℕ)
    → IsApart next text_index calls
    → IsApart (suc next) text_index calls
IsApart-suc next none calls h = tt
IsApart-suc next (some t) calls h = (omega (arith, h.0), h.1)

apart-append :
    (blocks : List PendingCall) (c : PendingCall) (t : ℕ)
    → t < c.index
    → All (λ i. i ≢ t) (indices blocks)
    → All (λ i. i ≢ t) (indices (blocks ++ c ∷ []))
apart-append [] c t lt h = (λ e. absurd (omega (arith, lt, e)), tt)
apart-append (b ∷ blocks) c t lt h = (h.0, apart-append blocks c t lt h.1)

IsApart-new :
    (next : ℕ) (text_index : Option ℕ) (blocks : List PendingCall) (c : PendingCall)
    → c.index ≡ next
    → IsApart next text_index (indices blocks)
    → IsApart (suc next) text_index (indices (blocks ++ c ∷ []))
IsApart-new next none blocks c e h = tt
IsApart-new next (some t) blocks c e h =
    (omega (arith, h.0), apart-append blocks c t (omega (arith, e, h.0)) h.1)

pub on_delta-IsWriter :
    (w : Writer) (key : ℕ) (id : String) (name delta : Option String)
    → IsWriter w
    → IsWriter (on_delta (get w.calls key) key id name delta w)
unfolding on_delta
on_delta-IsWriter w key id name delta h = elim (Option-cases (get w.calls key)) [
  | inl new ↦
      let blocks = values w.calls in
      let c = new_call w.next_index id name delta in
      rw (new) (record {
        rising = rw (values-put_new w.calls key c new) (
          Ascends-append blocks c 0 h.rising.0 h.rising.1 (omega arith),
          below_next blocks c w.next_index h.rising.1 refl,
        );
        apart =
            rw (values-put_new w.calls key c new)
              (IsApart-new w.next_index w.text_index blocks c refl h.apart);
      })
  | inr (old, found) ↦
      let same = indices-put_old w.calls key old (grown_call name delta old) found refl in
      rw found (record { rising = rw same h.rising; apart = rw same h.apart })
]

pub below_apart :
    (calls : List ℕ) (next : ℕ) → All (λ i. i < next) calls → All (λ i. i ≢ next) calls
below_apart [] next h = tt
below_apart (i ∷ calls) next h = (λ e. absurd (omega (arith, e, h.0)), below_apart calls next h.1)
