-- ===== src/Spend/Paths.antt =====
-- src/providers/command-code/spend-guard.ts: `assertNoSpendPath`. No word that it looks for has a
-- letter into which `toLowerCase` would turn a character outside ASCII.
use Prim.Native.Char.{code}
use Prim.Native.String.{String}
use cmm_routers.Prelude.{
  Bool, true, false, ◌&&◌, ◌||◌, List, [], ◌∷◌, any, nat_eq, ◌==◌, if◌then◌else◌,
}
use cmm_routers.Core.Errors.{Result, ok, err, router_error, provider_protocol_error, template}
use cmm_routers.Secrets.Names.{ascii_fold}

abbrev pub forbidden_spend_paths : List String
forbidden_spend_paths = "/extra" ∷ "extra" ∷ "purchase" ∷ "top-up" ∷ "topup" ∷ "top_up" ∷ []

-- whether a text starts with a word once its letters are small
unfoldable pub starts_with : String → String → Bool
starts_with String.[] s = true
starts_with (String.◌∷◌ c word) String.[] = false
starts_with (String.◌∷◌ c word) (String.◌∷◌ d s) =
    let rest = starts_with word s in code c == ascii_fold (code d) && rest

-- path.toLowerCase().includes(word)
unfoldable pub includes : String → String → Bool
unfolding starts_with
includes word String.[] = starts_with word ""
includes word (String.◌∷◌ c s) =
    let rest = includes word s in starts_with word (String.◌∷◌ c s) || rest

unfoldable pub assert_no_spend_path : String → Result (Unit {0})
unfolding includes template
assert_no_spend_path path =
    if any (λ word. includes word path) forbidden_spend_paths
    then err (
        router_error provider_protocol_error
          (template ("Forbidden Command Code spending path blocked: " ∷ path ∷ [])))
    else ok tt
