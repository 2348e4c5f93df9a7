-- ===== src/Identity/Bearer.antt =====
-- src/security/bearer-auth.ts
pub mod Header
use Prim.Native.Char.{Char, code}
use Prim.Native.String
use Prim.Native.String.{String}
use cmm_routers.Prelude.{
  ℕ, Bool, true, false, not, ◌&&◌, ◌||◌, Option, none, some, List, [], ◌∷◌, any, Eq, nat_eq, ◌==◌,
  string_eq, if◌then◌else◌, is_space, is_line_end, code_points,
}

-- The rest of a text after a prefix.
unfoldable pub strip_prefix : String → String → Option String
strip_prefix String.[] s = some s
strip_prefix (String.◌∷◌ c p) String.[] = none
strip_prefix (String.◌∷◌ c p) (String.◌∷◌ d s) =
    let rest = strip_prefix p s in if code c == code d then rest else none

-- What the group of `\s+(.+)$` matches: the text after the spaces, or the last of them where
-- nothing follows; `spaced` tells that a space has been read.
unfoldable pub after_spaces : Bool → String → Option String
after_spaces spaced String.[] = none
after_spaces spaced (String.◌∷◌ c String.[]) =
    if spaced && not (is_line_end (code c)) then some (String.◌∷◌ c "") else none
after_spaces spaced (String.◌∷◌ c (String.◌∷◌ d s)) =
    let rest = after_spaces true (String.◌∷◌ d s) in
    if is_space (code c)
    then rest
    else if spaced && not (any is_line_end (code_points (String.◌∷◌ c (String.◌∷◌ d s))))
    then some (String.◌∷◌ c (String.◌∷◌ d s))
    else none

-- authorizationHeader.match(/^Bearer\s+(.+)$/)?.[1]
unfoldable pub bearer_credential : String → Option String
unfolding strip_prefix after_spaces
bearer_credential header = elim (strip_prefix "Bearer" header) [
  | none ↦ none
  | some rest ↦ after_spaces false rest
]

module _ {D : Type 0} ⦃e : Eq D⦄ (digest : String → D) where
  unfoldable pub tokens_equal : String → String → Bool
  tokens_equal provided expected = digest expected == digest provided

  unfoldable pub verify_bearer : Option String → String → Bool
  verify_bearer none expected_secret = false
  verify_bearer (some header) expected_secret =
      if header == "" then false else elim (bearer_credential header) [
        | none ↦ false
        | some credential ↦ tokens_equal credential expected_secret
      ]
