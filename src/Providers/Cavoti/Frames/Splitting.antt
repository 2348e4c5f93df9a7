-- ===== src/Providers/Cavoti/Frames/Splitting.antt =====
-- src/providers/cavoti/client.ts: how `drain` splits a text that comes in parts.
use Prim.Native.Char.{Char, code}
use Prim.Native.String
use Prim.Native.String.{String}
use Prim.Native.String.len
use text.Mathlib.TextLemmas.{nil-append, cons-append}
use text.Mathlib.TextPositions.{len_utf8-pos}
use mathlib.Core.List.{append_assoc as list_append_assoc}
use cmm_routers.Prelude.{
  ℕ, ◌≤◌, Bool, true, false, List, [], ◌∷◌, ◌++◌, nat_eq, ◌==◌, string_eq, ◌≡◌, refl, sym, ap, ◌∙◌,
  arith, Bool-cases, inl, inr,
}
use cmm_routers.Core.ToolArguments.{trim}
use cmm_routers.Providers.Cavoti.Frames.{
  normalize, cons_first, newline, split, drain, with_last, drain_last,
}

-- go on with more text from where a text has been split
abbrev resume : List String × String → String → List String × String
resume (frames, carry) more =
    let (rest, carry') = split false (String.◌++◌ carry more) in (frames ++ rest, carry')

resume-cons_first :
    (c : Char) (r : List String × String) (more : String)
    → code c == 10 ≡ false
    → cons_first c (resume r more) ≡ resume (cons_first c r) more
unfolding split
resume-cons_first c ([], carry) more h = rw (cons-append, h, split) refl
resume-cons_first c (frame ∷ frames, carry) more h = refl

resume-newline :
    (c : Char) (r : List String × String) (more : String)
    → code c == 10 ≡ false
    → cons_first newline (cons_first c (resume r more))
      ≡ resume (cons_first newline (cons_first c r)) more
unfolding split
resume-newline c ([], carry) more h = rw (cons-append, cons-append, h, split) refl
resume-newline c (frame ∷ frames, carry) more h = refl

-- a text is split as its first part is, and then from what that leaves
split-append :
    (pending : Bool) (s more : String)
    → split pending (String.◌++◌ s more) ≡ resume (split pending s) more
unfolding split
split-append false String.[] more = refl
split-append true String.[] more = rw (cons-append, nil-append) refl
split-append false (String.◌∷◌ c s) more = elim (Bool-cases (code c == 10)) [
  | inl line_end ↦ rw (cons-append, line_end, split) (split-append true s more)
  | inr other ↦
      rw (cons-append, other, split)
        (ap (cons_first c) (split-append false s more)
          ∙ resume-cons_first c (split false s) more other)
]
split-append true (String.◌∷◌ c s) more = elim (Bool-cases (code c == 10)) [
  | inl line_end ↦
      rw (cons-append, line_end, split) (ap (λ r. ("" ∷ r.0, r.1)) (split-append false s more))
  | inr other ↦
      rw (cons-append, other, split)
        (ap (λ r. cons_first newline (cons_first c r)) (split-append false s more)
          ∙ resume-newline c (split false s) more other)
]

-- a text without carriage returns
abbrev pub HasNoReturn : String → Type 0
HasNoReturn String.[] = Unit
HasNoReturn (String.◌∷◌ c s) = (code c == 13 ≡ false) × HasNoReturn s

normalize_lem : (s : String) → HasNoReturn s → normalize s ≡ s
unfolding normalize
normalize_lem String.[] h = refl
normalize_lem (String.◌∷◌ c s) h =
    rw (h.0, normalize) (ap (λ t. String.◌∷◌ c t) (normalize_lem s h.1))

pub HasNoReturn-append :
    (s t : String) → HasNoReturn s → HasNoReturn t → HasNoReturn (String.◌++◌ s t)
HasNoReturn-append String.[] t h k = rw nil-append k
HasNoReturn-append (String.◌∷◌ c s) t h k = rw cons-append (h.0, HasNoReturn-append s t h.1 k)

-- what is left of a text is no longer than it, and has no carriage return either
abbrev IsRest : List String × String → ℕ → Type 0
IsRest r n = (String.len r.1 ≤ n) × HasNoReturn r.1

cons_first-IsRest :
    (c : Char) (r : List String × String) (s : String)
    → code c == 13 ≡ false
    → IsRest r (String.len s)
    → IsRest (cons_first c r) (String.len (String.◌∷◌ c s))
cons_first-IsRest c ([], carry) s h k =
    (omega (arith, len.cons c s, len.cons c carry, k.0), (h, k.1))
cons_first-IsRest c (frame ∷ frames, carry) s h k = (omega (arith, len.cons c s, k.0), k.1)

pub split-IsRest :
    (s : String)
    → HasNoReturn s
    → IsRest (split false s) (String.len s)
      × IsRest (split true s) (String.len (String.◌∷◌ newline s))
unfolding split
split-IsRest String.[] h = ((omega arith, tt), (omega arith, (refl, tt)))
split-IsRest (String.◌∷◌ c s) h =
    let (plain, pending) = split-IsRest s h.1 in
    elim (Bool-cases (code c == 10)) [
      | inl line_end ↦
          rw (line_end, split)
            (
              (
                omega (arith, pending.0, len.cons newline s, len.cons c s, (len_utf8-pos c).1),
                pending.1,
              ),
              (omega (arith, plain.0, len.cons newline (String.◌∷◌ c s), len.cons c s), plain.1),
            )
      | inr other ↦
          let first = cons_first-IsRest c (split false s) s h.0 plain in
          rw (other, split)
            (
              first,
              cons_first-IsRest newline (cons_first c (split false s)) (String.◌∷◌ c s) refl first,
            )
    ]

pub drain_lem : (s : String) → HasNoReturn s → drain s ≡ split false s
unfolding drain
drain_lem s h = ap (split false) (normalize_lem s h)

with_last-append :
    (frames : List String) (r : List String × String)
    → with_last (frames ++ r.0, r.1) ≡ frames ++ with_last r
unfolding with_last
with_last-append frames (rest, carry) = elim (Bool-cases (trim carry == "")) [
  | inl blank ↦ rw (blank, with_last) refl
  | inr left ↦ rw (left, with_last) (list_append_assoc frames rest (carry ∷ []))
]

pub drain_last-append :
    (s more : String)
    → HasNoReturn s
    → HasNoReturn more
    → drain_last (String.◌++◌ s more)
      ≡ (split false s).0 ++ drain_last (String.◌++◌ (split false s).1 more)
unfolding drain_last
drain_last-append s more h k =
    let carry = (split false s).1 in
    ap with_last
      (drain_lem (String.◌++◌ s more) (HasNoReturn-append s more h k) ∙ split-append false s more)
    ∙ with_last-append (split false s).0 (split false (String.◌++◌ carry more))
    ∙ ap (λ r. (split false s).0 ++ with_last r)
        (sym (
          drain_lem (String.◌++◌ carry more)
            (HasNoReturn-append carry more (split-IsRest s h).0.1 k)))
