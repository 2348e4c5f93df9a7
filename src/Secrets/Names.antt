-- ===== src/Secrets/Names.antt =====
-- Names of fields, compared without regard to case.
use Prim.Native.Char.{code}
use Prim.Native.String.{String}
use cmm_routers.Prelude.{
  ℕ, ◌+◌, Bool, true, false, ◌&&◌, List, [], ◌∷◌, nat_eq, ◌==◌, if◌then◌else◌, between, any,
}

-- The case folding of a regular expression with the flag `i`, on ASCII letters: no other character
-- is folded into ASCII.
abbrev pub ascii_fold : ℕ → ℕ
ascii_fold c = if between b'A' b'Z' c then c + 32 else c

-- `toLowerCase`, as far as a comparison with an ASCII word can tell: the Kelvin sign is a `k` too.
abbrev pub lower_fold : ℕ → ℕ
lower_fold c = if c == 8490 then b'k' else ascii_fold c

-- Whether a key is a word once its characters are folded.
unfoldable pub matches_word : (ℕ → ℕ) → String → String → Bool
matches_word fold String.[] String.[] = true
matches_word fold String.[] (String.◌∷◌ d key) = false
matches_word fold (String.◌∷◌ c word) String.[] = false
matches_word fold (String.◌∷◌ c word) (String.◌∷◌ d key) =
    let rest = matches_word fold word key in code c == fold (code d) && rest

abbrev pub matches_any : (ℕ → ℕ) → List String → String → Bool
matches_any fold words key = any (λ word. matches_word fold word key) words

abbrev pub secret_words : List String
secret_words =
    "authorization" ∷ "api_key" ∷ "apikey" ∷ "access_token" ∷ "refresh_token" ∷ "oauth" ∷ "secret"
    ∷ "cookie" ∷ []

abbrev pub forbidden_wire_keys : List String
forbidden_wire_keys =
    "authorization" ∷ "api_key" ∷ "apikey" ∷ "access_token" ∷ "refresh_token" ∷ "oauth" ∷ "secret"
    ∷ "cookie" ∷ "token" ∷ []

-- secretKeyPattern.test(key)
unfoldable pub is_secret_key : String → Bool
unfolding matches_word
is_secret_key key = matches_any ascii_fold secret_words key

-- FORBIDDEN_WIRE_KEYS.includes(key.toLowerCase())
unfoldable pub is_forbidden_wire_key : String → Bool
unfolding matches_word
is_forbidden_wire_key key = matches_any lower_fold forbidden_wire_keys key
