-- ===== src/Identity/Tests.antt =====
-- Identities on concrete headers, with the token itself for its digest.
use mathlib.Core.Option
use Prim.Native.String.{String}
use cmm_routers.Prelude.{◌≡◌, refl, none, some, string_eq, code_points}
use cmm_routers.Core.Errors.{ok}
use cmm_routers.Core.Profile.{agent}
use cmm_routers.Identity.Label.{
  candidate, trim_start, trim_end, to_lower_case, take, replace_runs, drop_dashes, drop_last_dashes,
  normalize_client_label,
}
use cmm_routers.Identity.Bearer.{
  verify_bearer, tokens_equal, bearer_credential, strip_prefix, after_spaces,
}
use cmm_routers.Identity.Profiles.{
  ServerTokens, assert_distinct_server_tokens, assert_distinct, resolve_request_identity,
  match_credential,
}
use cmm_routers.Identity.Unambiguous.{profile_in_reverse, resolve_request_identity-unambiguous}

abbrev digest : String → String
digest token = token

abbrev tokens : ServerTokens
tokens = record {
  cmmchat_token = "c-secret";
  code_router_token = some "r-secret";
  legacy_qoder_token = none;
}

are_distinct : assert_distinct_server_tokens digest tokens ≡ ok tt
unfolding assert_distinct_server_tokens assert_distinct tokens_equal
are_distinct = refl

resolve_request_identity-unambiguous_example :
    Option.map
      (λ i. i.profile)
      (resolve_request_identity digest (some "Bearer  r-secret") tokens (some " My App! "))
    ≡ profile_in_reverse digest (some "Bearer  r-secret") tokens
resolve_request_identity-unambiguous_example =
    resolve_request_identity-unambiguous digest tokens (some "Bearer  r-secret") (some " My App! ")
      are_distinct

is_agent :
    resolve_request_identity digest (some "Bearer  r-secret") tokens (some " My App! ")
    ≡ some (record { profile = agent; client_label = some (code_points "my-app") })
unfolding resolve_request_identity match_credential verify_bearer tokens_equal bearer_credential
    strip_prefix after_spaces normalize_client_label candidate trim_start trim_end to_lower_case
    take replace_runs drop_dashes drop_last_dashes
is_agent = refl
