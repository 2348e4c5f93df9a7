-- ===== src/Identity/Label.antt =====
-- src/core/client-identity.ts. A text is the list of its code points; a label is kept as that list.
pub mod Shape
use Prim.Native.String.{String}
use cmm_routers.Prelude.{
  ℕ, ◌+◌, ◌-◌, Bool, true, false, not, ◌&&◌, ◌||◌, Option, none, some, List, [], ◌∷◌, ◌++◌, ltb,
  leb, nat_eq, ◌==◌, if◌then◌else◌, zero, suc, is_space, between, code_points,
}

abbrev pub client_label_max_length : ℕ
client_label_max_length = 64

unfoldable pub trim_start : List ℕ → List ℕ
trim_start [] = []
trim_start (c ∷ s) = if is_space c then trim_start s else c ∷ s

-- a character before a text that has been cut at its end by `p`
abbrev pub keep_unless : (ℕ → Bool) → ℕ → List ℕ → List ℕ
keep_unless p c [] = if p c then [] else c ∷ []
keep_unless p c (d ∷ s) = c ∷ d ∷ s

unfoldable pub trim_end : List ℕ → List ℕ
trim_end [] = []
trim_end (c ∷ s) = keep_unless is_space c (trim_end s)

-- The UTF-16 units of `toLowerCase` of a character, as far as the rest of the function can tell
-- them apart: the Kelvin sign and the dotted capital i become ASCII letters, a capital letter its
-- small one, and what stays outside ASCII stays there, in two units from U+10000.
abbrev pub lower_units : ℕ → List ℕ
lower_units c =
    if between b'A' b'Z' c
    then (c + 32) ∷ []
    else if c == 8490
    then b'k' ∷ []
    else if c == 304
    then b'i' ∷ 775 ∷ []
    else if leb 65536 c
    then 55296 ∷ 56320 ∷ []
    else c ∷ []

unfoldable pub to_lower_case : List ℕ → List ℕ
to_lower_case [] = []
to_lower_case (c ∷ s) = lower_units c ++ to_lower_case s

-- s.slice(0, n)
unfoldable pub take : ℕ → List ℕ → List ℕ
take zero s = []
take (suc n) [] = []
take (suc n) (c ∷ s) = c ∷ take n s

-- [a-z0-9._-]
abbrev pub is_label_char : ℕ → Bool
is_label_char c = between b'a' b'z' c || between b'0' b'9' c || c == b'.' || c == b'_' || c == b'-'

-- .replace(/[^a-z0-9._-]+/g, "-"); `in_run` tells that the run of replaced characters goes on
unfoldable pub replace_runs : Bool → List ℕ → List ℕ
replace_runs in_run [] = []
replace_runs in_run (c ∷ s) =
    let kept = replace_runs false s in
    let replaced = replace_runs true s in
    if is_label_char c then c ∷ kept else if in_run then replaced else b'-' ∷ replaced

unfoldable pub drop_dashes : List ℕ → List ℕ
drop_dashes [] = []
drop_dashes (c ∷ s) = if c == b'-' then drop_dashes s else c ∷ s

unfoldable pub drop_last_dashes : List ℕ → List ℕ
drop_last_dashes [] = []
drop_last_dashes (c ∷ s) = keep_unless (λ d. d == b'-') c (drop_last_dashes s)

unfoldable pub candidate : List ℕ → List ℕ
unfolding trim_start trim_end to_lower_case take replace_runs drop_dashes drop_last_dashes
candidate raw = drop_last_dashes (
    drop_dashes (
      replace_runs false
        (take client_label_max_length (to_lower_case (trim_end (trim_start raw))))))

unfoldable pub normalize_client_label : Option String → Option (List ℕ)
unfolding candidate
normalize_client_label none = none
normalize_client_label (some raw) =
    let label = candidate (code_points raw) in elim label [ [] ↦ none | c ∷ s ↦ some (c ∷ s) ]
