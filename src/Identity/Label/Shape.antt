-- ===== src/Identity/Label/Shape.antt =====
-- What a normalized label looks like, and that normalizing it again changes nothing.
use cmm_routers.Prelude.{
  ℕ, ◌≤◌, Bool, true, false, ◌&&◌, List, [], ◌∷◌, nat_eq, ◌==◌, zero, suc, is_space, all, length,
  arith, ◌≡◌, refl, ap, Bool-cases, inl, inr,
}
use cmm_routers.Identity.Label.{
  trim_start, trim_end, to_lower_case, take, replace_runs, drop_dashes, drop_last_dashes, candidate,
  keep_unless, is_label_char, lower_units, client_label_max_length,
}

abbrev pub starts_with_dash : List ℕ → Bool
starts_with_dash [] = false
starts_with_dash (c ∷ s) = c == b'-'

abbrev pub ends_with_dash : List ℕ → Bool
ends_with_dash [] = false
ends_with_dash (c ∷ []) = c == b'-'
ends_with_dash (c ∷ d ∷ s) = ends_with_dash (d ∷ s)

-- A label, or the empty text.
abbrev pub IsLabel : List ℕ → Type 0
IsLabel s =
    (length s ≤ 64)
    × (all is_label_char s ≡ true)
    × (starts_with_dash s ≡ false)
    × (ends_with_dash s ≡ false)

length-take : (n : ℕ) (s : List ℕ) → length (take n s) ≤ n
unfolding take
length-take zero s = omega arith
length-take (suc n) [] = omega arith
length-take (suc n) (c ∷ s) = omega (arith, length-take n s)

length-replace_runs : (in_run : Bool) (s : List ℕ) → length (replace_runs in_run s) ≤ length s
unfolding replace_runs
length-replace_runs in_run [] = omega arith
length-replace_runs in_run (c ∷ s) =
    ground (arith, length-replace_runs true s, length-replace_runs false s)

length-drop_dashes : (s : List ℕ) → length (drop_dashes s) ≤ length s
unfolding drop_dashes
length-drop_dashes [] = omega arith
length-drop_dashes (c ∷ s) = ground (arith, length-drop_dashes s)

length-drop_last_dashes : (s : List ℕ) → length (drop_last_dashes s) ≤ length s
unfolding drop_last_dashes
length-drop_last_dashes [] = omega arith
length-drop_last_dashes (c ∷ s) = ground (arith, length-drop_last_dashes s)

and_right : (a : Bool) {b : Bool} → (a && b) ≡ true → b ≡ true
and_right a h = ground (arith, h)

and_left : {a : Bool} (b : Bool) → (a && b) ≡ true → a ≡ true
and_left b h = ground (arith, h)

all-replace_runs : (in_run : Bool) (s : List ℕ) → all is_label_char (replace_runs in_run s) ≡ true
unfolding replace_runs
all-replace_runs in_run [] = refl
all-replace_runs true (c ∷ s) = elim (Bool-cases (is_label_char c)) [
  | inl k ↦ rw k (rw k (all-replace_runs false s))
  | inr k ↦ rw k (all-replace_runs true s)
]
all-replace_runs false (c ∷ s) = elim (Bool-cases (is_label_char c)) [
  | inl k ↦ rw k (rw k (all-replace_runs false s))
  | inr k ↦ rw k (all-replace_runs true s)
]

all-drop_dashes :
    (s : List ℕ) → all is_label_char s ≡ true → all is_label_char (drop_dashes s) ≡ true
unfolding drop_dashes
all-drop_dashes [] h = refl
all-drop_dashes (c ∷ s) h = elim (Bool-cases (c == b'-')) [
  | inl dash ↦ rw dash (all-drop_dashes s (and_right (is_label_char c) h))
  | inr other ↦ rw other h
]

keep_last-all :
    (c : ℕ) (s : List ℕ)
    → is_label_char c ≡ true
    → all is_label_char s ≡ true
    → all is_label_char (keep_unless (λ d. d == b'-') c s) ≡ true
keep_last-all c [] hc hs = elim (Bool-cases (c == b'-')) [
  | inl dash ↦ rw dash refl
  | inr other ↦ rw other (rw hc refl)
]
keep_last-all c (d ∷ s) hc hs = rw hc hs

all-drop_last_dashes :
    (s : List ℕ) → all is_label_char s ≡ true → all is_label_char (drop_last_dashes s) ≡ true
unfolding drop_last_dashes
all-drop_last_dashes [] h = refl
all-drop_last_dashes (c ∷ s) h =
    keep_last-all c (drop_last_dashes s) (and_left (all is_label_char s) h)
      (all-drop_last_dashes s (and_right (is_label_char c) h))

starts-drop_dashes : (s : List ℕ) → starts_with_dash (drop_dashes s) ≡ false
unfolding drop_dashes
starts-drop_dashes [] = refl
starts-drop_dashes (c ∷ s) = ground (arith, starts-drop_dashes s)

starts-drop_last_dashes :
    (s : List ℕ) → starts_with_dash s ≡ false → starts_with_dash (drop_last_dashes s) ≡ false
unfolding drop_last_dashes
starts-drop_last_dashes [] h = refl
starts-drop_last_dashes (c ∷ s) h = ground (arith, h)

ends-drop_last_dashes : (s : List ℕ) → ends_with_dash (drop_last_dashes s) ≡ false
unfolding drop_last_dashes
ends-drop_last_dashes [] = refl
ends-drop_last_dashes (c ∷ s) = ground (arith, ends-drop_last_dashes s)

-- A normalized label is at most 64 characters of `[a-z0-9._-]` with no dash at either end,
-- whatever the header.
pub candidate-IsLabel : (raw : List ℕ) → IsLabel (candidate raw)
unfolding candidate
candidate-IsLabel raw =
    let cut = take client_label_max_length (to_lower_case (trim_end (trim_start raw))) in
    let replaced = replace_runs false cut in
    (
      omega (
        arith,
        length-drop_last_dashes (drop_dashes replaced),
        length-drop_dashes replaced,
        length-replace_runs false cut,
        length-take client_label_max_length (to_lower_case (trim_end (trim_start raw))),
      ),
      all-drop_last_dashes (drop_dashes replaced)
          (all-drop_dashes replaced (all-replace_runs false cut)),
      starts-drop_last_dashes (drop_dashes replaced) (starts-drop_dashes replaced),
      ends-drop_last_dashes (drop_dashes replaced),
    )

not_space : (c : ℕ) → is_label_char c ≡ true → is_space c ≡ false
not_space c h = ground (arith, h)

lower_units-label : (c : ℕ) → is_label_char c ≡ true → lower_units c ≡ c ∷ []
lower_units-label c h = ground (arith, h)

trim_start-label : (s : List ℕ) → all is_label_char s ≡ true → trim_start s ≡ s
unfolding trim_start
trim_start-label [] h = refl
trim_start-label (c ∷ s) h = rw (not_space c (and_left (all is_label_char s) h)) refl

trim_end-label : (s : List ℕ) → all is_label_char s ≡ true → trim_end s ≡ s
unfolding trim_end
trim_end-label [] h = refl
trim_end-label (c ∷ s) h =
    rw (trim_end-label s (and_right (is_label_char c) h))
      (keeps c s (not_space c (and_left (all is_label_char s) h)))
  where
    keeps : (c : ℕ) (s : List ℕ) → is_space c ≡ false → keep_unless is_space c s ≡ c ∷ s
    keeps c [] k = rw k refl
    keeps c (d ∷ s) k = refl

to_lower_case-label : (s : List ℕ) → all is_label_char s ≡ true → to_lower_case s ≡ s
unfolding to_lower_case
to_lower_case-label [] h = refl
to_lower_case-label (c ∷ s) h =
    rw
      (
        lower_units-label c (and_left (all is_label_char s) h),
        to_lower_case-label s (and_right (is_label_char c) h),
      )
      refl

take-short : (n : ℕ) (s : List ℕ) → length s ≤ n → take n s ≡ s
unfolding take
take-short zero [] h = refl
take-short zero (c ∷ s) h = absurd (omega arith)
take-short (suc n) [] h = refl
take-short (suc n) (c ∷ s) h = ap (λ r. c ∷ r) (take-short n s (omega arith))

replace_runs-label : (s : List ℕ) → all is_label_char s ≡ true → replace_runs false s ≡ s
unfolding replace_runs
replace_runs-label [] h = refl
replace_runs-label (c ∷ s) h =
    rw (and_left (all is_label_char s) h)
      (ap (λ r. c ∷ r) (replace_runs-label s (and_right (is_label_char c) h)))

drop_dashes-label : (s : List ℕ) → starts_with_dash s ≡ false → drop_dashes s ≡ s
unfolding drop_dashes
drop_dashes-label [] h = refl
drop_dashes-label (c ∷ s) h = rw h refl

drop_last_dashes-label : (s : List ℕ) → ends_with_dash s ≡ false → drop_last_dashes s ≡ s
unfolding drop_last_dashes
drop_last_dashes-label [] h = refl
drop_last_dashes-label (c ∷ []) h = rw h refl
drop_last_dashes-label (c ∷ d ∷ s) h = rw (drop_last_dashes-label (d ∷ s) h) refl

candidate-label : (s : List ℕ) → IsLabel s → candidate s ≡ s
unfolding candidate
candidate-label s h =
    rw
      (
        trim_start-label s h.1,
        trim_end-label s h.1,
        to_lower_case-label s h.1,
        take-short client_label_max_length s h.0,
        replace_runs-label s h.1,
        drop_dashes-label s h.2,
        drop_last_dashes-label s h.3,
      )
      refl

-- Normalizing a label that has been normalized changes nothing.
pub candidate-candidate : (raw : List ℕ) → candidate (candidate raw) ≡ candidate raw
candidate-candidate raw = candidate-label (candidate raw) (candidate-IsLabel raw)
