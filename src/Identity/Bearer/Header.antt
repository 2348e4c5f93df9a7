-- ===== src/Identity/Bearer/Header.antt =====
-- Which credential a well-formed header carries.
use Prim.Native.Char.{Char, code}
use Prim.Native.String
use Prim.Native.String.{String}
use text.Mathlib.TextLemmas.{nil-append, cons-append}
use cmm_routers.Prelude.{
  Bool, true, false, some, any, Eq, nat_eq, ◌==◌, string_eq, is_space, is_line_end, code_points,
  ◌≡◌, refl, arith, ==_refl, ==_ne,
}
use cmm_routers.Identity.Bearer.{
  strip_prefix, after_spaces, bearer_credential, tokens_equal, verify_bearer,
}

-- A token that a header carries unchanged: some text that does not start with a space and has no
-- line end in it.
abbrev pub IsToken : String → Type 0
IsToken String.[] = ⊥
IsToken (String.◌∷◌ c s) =
    (is_space (code c) ≡ false) × (any is_line_end (code_points (String.◌∷◌ c s)) ≡ false)

after_spaces-token : (t : String) → IsToken t → after_spaces true t ≡ some t
unfolding after_spaces
after_spaces-token String.[] h = absurd h
after_spaces-token (String.◌∷◌ c String.[]) h = ground (arith, h.1)
after_spaces-token (String.◌∷◌ c (String.◌∷◌ d s)) h = rw (h.0, h.1) refl

prefix_of-append : (p t : String) → strip_prefix p (String.◌++◌ p t) ≡ some t
unfolding strip_prefix
prefix_of-append String.[] t = rw nil-append refl
prefix_of-append (String.◌∷◌ c p) t =
    rw cons-append (rw (==_refl (code c), prefix_of-append p t) refl)

after_spaces-space :
    (spaced : Bool) (t : String) → IsToken t → after_spaces spaced (String.◌++◌ " " t) ≡ some t
unfolding after_spaces
after_spaces-space spaced String.[] h = absurd h
after_spaces-space spaced (String.◌∷◌ c s) h =
    rw (cons-append, nil-append) (after_spaces-token (String.◌∷◌ c s) h)

starts : (c : Char) (s t : String) → (String.◌++◌ (String.◌∷◌ c s) t == "") ≡ false
starts c s t = rw cons-append (==_ne (String.◌∷◌ c (String.◌++◌ s t)) "" (λ h. cc))

-- A header of `Bearer`, a space and a token is verified by comparing that token.
pub verify_bearer-token :
    {D : Type 0} ⦃e : Eq D⦄ (digest : String → D) (t secret : String)
    → IsToken t
    → verify_bearer digest (some (String.◌++◌ "Bearer" (String.◌++◌ " " t))) secret
      ≡ tokens_equal digest t secret
unfolding verify_bearer bearer_credential
verify_bearer-token digest t secret h =
    rw
      (
        starts "B" "earer" (String.◌++◌ " " t),
        prefix_of-append "Bearer" (String.◌++◌ " " t),
        after_spaces-space false t h,
      )
      refl
