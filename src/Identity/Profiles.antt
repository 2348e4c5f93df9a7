-- ===== src/Identity/Profiles.antt =====
-- src/http/identity.ts
use Prim.Native.String.{String}
use cmm_routers.Prelude.{
  ℕ, Bool, false, not, ◌&&◌, Option, none, some, List, [], ◌∷◌, Eq, string_eq, ◌==◌, if◌then◌else◌,
  code_points,
}
use cmm_routers.Core.Errors.{Result, ok, err, router_error, router_misconfigured, template, ◌>>◌}
use cmm_routers.Core.Profile.{RouterProfile, chat, agent}
use cmm_routers.Identity.Label.{normalize_client_label}
use cmm_routers.Identity.Bearer.{tokens_equal, verify_bearer}

pub record ServerTokens : Type 0 where
  pub cmmchat_token : String
  pub code_router_token : Option String
  pub legacy_qoder_token : Option String

pub record ResolvedIdentity : Type 0 where
  pub profile : RouterProfile
  pub client_label : Option (List ℕ)

pub data CredentialKind : Type 0 where
  cmmchat code_router legacy_qoder : CredentialKind

abbrev pub cmmchat_client_label : List ℕ
cmmchat_client_label = code_points "cmmchat"

abbrev pub legacy_code_router_client_label : List ℕ
legacy_code_router_client_label = code_points "qoder"

abbrev pub profile_for : CredentialKind → RouterProfile
profile_for cmmchat = chat
profile_for code_router = agent
profile_for legacy_qoder = agent

-- The identity of a request with that label, from the credential that validated.
abbrev pub identity_of : CredentialKind → Option (List ℕ) → ResolvedIdentity
identity_of kind (some label) = record { profile = profile_for kind; client_label = some label }
identity_of cmmchat none = record { profile = chat; client_label = some cmmchat_client_label }
identity_of legacy_qoder none = record {
  profile = agent;
  client_label = some legacy_code_router_client_label;
}
identity_of code_router none = record { profile = agent; client_label = none }

module _ {D : Type 0} ⦃e : Eq D⦄ (digest : String → D) where
  -- configured(token) && verifyBearer(header, token)
  abbrev pub validates : Option String → Option String → Bool
  validates header none = false
  validates header (some token) = not (token == "") && verify_bearer digest header token

  unfoldable pub match_credential : Option String → ServerTokens → Option CredentialKind
  match_credential header tokens =
      if verify_bearer digest header tokens.cmmchat_token
      then some cmmchat
      else if validates header tokens.code_router_token
      then some code_router
      else if validates header tokens.legacy_qoder_token
      then some legacy_qoder
      else none

  -- one turn of the loop over the Code Router's secrets
  unfoldable pub assert_distinct : String → Option String → String → Result (Unit {0})
  unfolding template
  assert_distinct label none cmmchat_token = ok tt
  assert_distinct label (some value) cmmchat_token =
      if value == ""
      then err (
          router_error router_misconfigured
            (template ("The " ∷ label ∷ " is configured but empty" ∷ [])))
      else if tokens_equal digest value cmmchat_token
      then err (
          router_error router_misconfigured (
            template (
              "The CMMChat bearer and the " ∷ label
              ∷ " must be distinct; refusing to start with an ambiguous profile mapping" ∷ [])))
      else ok tt

  unfoldable pub assert_distinct_server_tokens : ServerTokens → Result (Unit {0})
  unfolding assert_distinct
  assert_distinct_server_tokens tokens =
      if tokens.cmmchat_token == ""
      then err (
          router_error router_misconfigured
            "The CMMChat bearer token must be configured and non-empty")
      else assert_distinct "canonical Code Router bearer" tokens.code_router_token
          tokens.cmmchat_token
        >> assert_distinct "legacy Code Router bearer" tokens.legacy_qoder_token
            tokens.cmmchat_token

  unfoldable pub resolve_request_identity :
      Option String → ServerTokens → Option String → Option ResolvedIdentity
  unfolding match_credential
  resolve_request_identity header tokens client_header = elim (match_credential header tokens) [
    | none ↦ none
    | some kind ↦ some (identity_of kind (normalize_client_label client_header))
  ]
