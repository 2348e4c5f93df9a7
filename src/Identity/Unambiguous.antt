-- ===== src/Identity/Unambiguous.antt =====
-- A server that starts maps each credential to one profile.
use Prim.Native.String.{String}
use cmm_routers.Prelude.{
  ℕ, true, false, ◌||◌, Option, none, some, List, Eq, string_eq, ◌==◌, if◌then◌else◌, ◌≡◌, refl,
  ◌∙◌, sym, ap, arith, Option-cases, Bool-cases, inl, inr,
}
use mathlib.Core.Option
use cmm_routers.Core.Errors.{ok, >>=-eq-ok}
use cmm_routers.Core.Profile.{RouterProfile, chat, agent}
use cmm_routers.Identity.Label.{normalize_client_label}
use cmm_routers.Identity.Bearer.{tokens_equal, verify_bearer, bearer_credential}
use cmm_routers.Identity.Profiles.{
  ServerTokens, CredentialKind, identity_of, profile_for, validates, match_credential,
  assert_distinct, assert_distinct_server_tokens, resolve_request_identity,
}

identity_of-profile :
    (kind : CredentialKind) (label : Option (List ℕ))
    → (identity_of kind label).profile ≡ profile_for kind
identity_of-profile CredentialKind.cmmchat none = refl
identity_of-profile CredentialKind.code_router none = refl
identity_of-profile CredentialKind.legacy_qoder none = refl
identity_of-profile CredentialKind.cmmchat (some label) = refl
identity_of-profile CredentialKind.code_router (some label) = refl
identity_of-profile CredentialKind.legacy_qoder (some label) = refl

module _ {D : Type 0} ⦃e : Eq D⦄ (digest : String → D) where
  -- The profile of a header, found by trying the secrets in the opposite order.
  abbrev pub profile_in_reverse : Option String → ServerTokens → Option RouterProfile
  profile_in_reverse header tokens =
      if validates digest header tokens.legacy_qoder_token
        || validates digest header tokens.code_router_token
      then some agent
      else if verify_bearer digest header tokens.cmmchat_token
      then some chat
      else none

  -- one header does not verify two secrets that are told apart
  verify_unique :
      (header : Option String) (secret other : String)
      → tokens_equal digest other secret ≡ false
      → verify_bearer digest header secret ≡ true
      → verify_bearer digest header other ≡ false
  unfolding verify_bearer tokens_equal
  verify_unique none secret other h v = refl
  verify_unique (some header) secret other h v = elim (Option-cases (bearer_credential header)) [
    | inl c ↦ ground (arith, c, v)
    | inr (credential, c) ↦ ground (
      arith,
      c,
      v,
      h,
      e.beq_iff (digest secret) (digest credential),
      e.beq_iff (digest other) (digest credential),
      e.beq_iff (digest secret) (digest other),
    )
  ]

  assert_distinct-ok :
      (label : String) (value : Option String) (cmmchat_token : String) (header : Option String)
      → assert_distinct digest label value cmmchat_token ≡ ok tt
      → verify_bearer digest header cmmchat_token ≡ true
      → validates digest header value ≡ false
  unfolding assert_distinct
  assert_distinct-ok label none cmmchat_token header h v = refl
  assert_distinct-ok label (some value) cmmchat_token header h v =
      elim (Bool-cases (tokens_equal digest value cmmchat_token)) [
        | inl same ↦ ground (arith, same, h)
        | inr differ ↦ rw (verify_unique header cmmchat_token value differ v) (ground arith)
      ]

  both_distinct :
      (tokens : ServerTokens) (header : Option String)
      → assert_distinct_server_tokens digest tokens ≡ ok tt
      → verify_bearer digest header tokens.cmmchat_token ≡ true
      → (validates digest header tokens.code_router_token ≡ false)
        × (validates digest header tokens.legacy_qoder_token ≡ false)
  unfolding assert_distinct_server_tokens
  both_distinct tokens header h v = elim (Bool-cases (tokens.cmmchat_token == "")) [
    | inl empty ↦ ground (arith, empty, h)
    | inr set ↦
        let (u, canonical, legacy) =
          >>=-eq-ok
            (assert_distinct digest "canonical Code Router bearer" tokens.code_router_token
              tokens.cmmchat_token)
            (λ u.
              assert_distinct digest "legacy Code Router bearer" tokens.legacy_qoder_token
                tokens.cmmchat_token)
            (sym (rw set refl) ∙ h) in
        (
          assert_distinct-ok "canonical Code Router bearer" tokens.code_router_token
              tokens.cmmchat_token header canonical v,
          assert_distinct-ok "legacy Code Router bearer" tokens.legacy_qoder_token
              tokens.cmmchat_token header legacy v,
        )
  ]

  match_credential-profile :
      (tokens : ServerTokens) (header : Option String)
      → assert_distinct_server_tokens digest tokens ≡ ok tt
      → Option.map profile_for (match_credential digest header tokens)
        ≡ profile_in_reverse header tokens
  unfolding match_credential
  match_credential-profile tokens header h =
      elim (Bool-cases (verify_bearer digest header tokens.cmmchat_token)) [
        | inl v ↦
            let (code, legacy) = both_distinct tokens header h v in ground (arith, v, code, legacy)
        | inr v ↦ ground (arith, v)
      ]

  resolve-profile :
      (tokens : ServerTokens) (header client_header : Option String)
      → Option.map (λ i. i.profile) (resolve_request_identity digest header tokens client_header)
        ≡ Option.map profile_for (match_credential digest header tokens)
  unfolding resolve_request_identity
  resolve-profile tokens header client_header =
      elim (Option-cases (match_credential digest header tokens)) [
        | inl none_matches ↦ rw (none_matches, resolve_request_identity) refl
        | inr (kind, matches) ↦
            rw (matches, resolve_request_identity)
              (ap some (identity_of-profile kind (normalize_client_label client_header)))
      ]

  -- Once the startup check has accepted the tokens, the profile of a request does not depend on the
  -- order in which the secrets are tried, nor on the label that the client sends, whatever the
  -- digest: it is the one found by trying the Code Router's secrets first, and there is none
  -- where no secret verifies.
  pub resolve_request_identity-unambiguous :
      (tokens : ServerTokens) (header client_header : Option String)
      → assert_distinct_server_tokens digest tokens ≡ ok tt
      → Option.map (λ i. i.profile) (resolve_request_identity digest header tokens client_header)
        ≡ profile_in_reverse header tokens
  resolve_request_identity-unambiguous tokens header client_header h =
      resolve-profile tokens header client_header ∙ match_credential-profile tokens header h
