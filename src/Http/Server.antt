-- ===== src/Http/Server.antt =====
-- src/http/server.ts and src/http/diagnostics.ts: the authentication of a request and the routes that
-- only read. A header is its value if it is one string.
pub mod Counts
use Prim.Native.String
use Prim.Native.String.{String}
use cmm_routers.Prelude.{
  ℕ, suc, Bool, true, false, not, ◌&&◌, ◌||◌, Option, none, some, List, [], ◌∷◌, Eq, string_eq,
  ◌==◌, is_some, any, map, length, if◌then◌else◌, ◌≡◌, ◌⊎◌, refl, arith, Bool-cases, Option-cases,
  inl, inr, subst, ◌<◌,
}
use cmm_routers.Prelude.OrderedMap.{OrderedMap}
use cmm_routers.Core.Errors.{template}
use cmm_routers.Core.ToolAccess.NameSet.{to_set}
use cmm_routers.Core.Profile.{ProviderCapability}
use cmm_routers.Core.Model.{DiscoveredModel, provider_text}
use cmm_routers.Core.Capabilities.{ProtocolCapabilities, protocol_capabilities_for}
use cmm_routers.Registry.{
  ProviderRegistry, ProviderHealth, HealthCheck, get_provider_health, list_models,
}
use cmm_routers.Identity.Bearer.{strip_prefix, verify_bearer}
use cmm_routers.Identity.Profiles.{
  ServerTokens, ResolvedIdentity, resolve_request_identity, match_credential,
}
use cmm_routers.Http.Reply.{HttpError, http_error}

pub record Incoming : Type 0 where
  pub url : String
  pub authorization : Option String
  pub api_key : Option String
  pub client_label : Option String

-- What the hook leaves of a request.
pub data Authenticated : Type 0 where
  unprotected : Authenticated
  identified : ResolvedIdentity → Authenticated
  unauthorized : HttpError → Authenticated

-- url.startsWith(prefix)
abbrev pub starts_with : String → String → Bool
starts_with prefix url = is_some (strip_prefix prefix url)

-- a header that is a string and not empty
abbrev pub filled : Option String → Option String
filled none = none
filled (some s) = if s == "" then none else some s

unfoldable pub unauthorized_error : Bool → HttpError
unauthorized_error true = http_error 401 "authentication_error" "Invalid or missing credentials"
unauthorized_error false = http_error 401 "router_unauthorized" "Invalid or missing bearer token"

-- the API key, which only the Anthropic surface accepts
unfoldable pub api_key_of : Incoming → Option String
api_key_of r = if starts_with "/v1/messages" r.url then filled r.api_key else none

-- the one credential of the request: none if there are two
unfoldable pub credential_of : (api_key bearer : Option String) → Option (Option String)
credential_of (some key) (some bearer) = none
credential_of (some key) none = some (some (String.◌++◌ "Bearer " key))
credential_of none bearer = some bearer

module _ {D : Type 0} ⦃e : Eq D⦄ (digest : String → D) (tokens : ServerTokens) where
  abbrev pub identify : Incoming → Option (Option String) → HttpError → Authenticated
  identify r none error = unauthorized error
  identify r (some header) error =
      elim (resolve_request_identity digest header tokens r.client_label) [
        | none ↦ unauthorized error
        | some identity ↦ identified identity
      ]

  -- The `preHandler` hook.
  unfoldable pub pre_handler : Incoming → Authenticated
  unfolding api_key_of credential_of unauthorized_error
  pre_handler r =
      if starts_with "/v1/" r.url
      then identify r (credential_of (api_key_of r) (filled r.authorization))
          (unauthorized_error (starts_with "/v1/messages" r.url))
      else unprotected

-- The only credential of a request: an `authorization` header with no API key that counts, or an API
-- key on the Anthropic surface with no `authorization` header, which stands for the same bearer.
pub data IsOnlyCredential (r : Incoming) : String → Type 0 where
  by_header :
      (header : String)
      → r.authorization ≡ some header
      → (starts_with "/v1/messages" r.url ≡ false) ⊎ (filled r.api_key ≡ none)
      → IsOnlyCredential r header
  by_key :
      (key : String)
      → r.api_key ≡ some key
      → starts_with "/v1/messages" r.url ≡ true
      → filled r.authorization ≡ none
      → IsOnlyCredential r (String.◌++◌ "Bearer " key)

filled-some : (o : Option String) (s : String) → filled o ≡ some s → o ≡ some s
filled-some none s h = cc
filled-some (some t) s h = ground arith

only :
    (r : Incoming) (c : String)
    → credential_of (api_key_of r) (filled r.authorization) ≡ some (some c)
    → IsOnlyCredential r c
unfolding credential_of api_key_of
only r c h = elim (Bool-cases (starts_with "/v1/messages" r.url)) [
  | inl messages ↦ elim (Option-cases (filled r.api_key)) [
    | inl no_key ↦
        by_header c (filled-some r.authorization c (ground (arith, messages, no_key, h)))
          (inr no_key)
    | inr (key, has_key) ↦ elim (Option-cases (filled r.authorization)) [
      | inl no_header ↦
          let same : String.◌++◌ "Bearer " key ≡ c =
            ground (arith, messages, has_key, no_header, h) in
          subst (IsOnlyCredential r) same
            (by_key key (filled-some r.api_key key has_key) messages no_header)
      | inr (header, has_header) ↦ absurd (ground (arith, messages, has_key, has_header, h))
    ]
  ]
  | inr elsewhere ↦
      by_header c (filled-some r.authorization c (ground (arith, elsewhere, h))) (inl elsewhere)
]

module _ {D : Type 0} ⦃e : Eq D⦄ (digest : String → D) (tokens : ServerTokens) where
  nobody : (label : Option String) → resolve_request_identity digest none tokens label ≡ none
  unfolding resolve_request_identity match_credential verify_bearer
  nobody label = ground arith

  identify_lem :
      (r : Incoming) (found : Option (Option String)) (error : HttpError) (i : ResolvedIdentity)
      → identify digest tokens r found error ≡ identified i
      → (c : String) × (found ≡ some (some c))
        × (resolve_request_identity digest (some c) tokens r.client_label ≡ some i)
  identify_lem r none error i h = cc
  identify_lem r (some none) error i h = absurd (ground (arith, h, nobody r.client_label))
  identify_lem r (some (some c)) error i h = (c, refl, ground (arith, h))

  -- A request under `/v1/` is identified only by a single credential, the identity being what the
  -- server's tokens make of it; an API key counts on the Anthropic surface alone, as the bearer of
  -- the same text, and never beside an `authorization` header.
  pub pre_handler-IsOnlyCredential :
      (r : Incoming) (i : ResolvedIdentity)
      → pre_handler digest tokens r ≡ identified i
      → (c : String) × IsOnlyCredential r c
        × (resolve_request_identity digest (some c) tokens r.client_label ≡ some i)
  unfolding pre_handler
  pre_handler-IsOnlyCredential r i h = elim (Bool-cases (starts_with "/v1/" r.url)) [
    | inl protected ↦
        let (c, found, resolved) =
          identify_lem r (credential_of (api_key_of r) (filled r.authorization))
            (unauthorized_error (starts_with "/v1/messages" r.url)) i
            (ground (arith, protected, h)) in
        (c, only r c found, resolved)
    | inr elsewhere ↦ absurd (ground (arith, elsewhere, h))
  ]

-- `/ready`: some provider reports that it is ready
unfoldable pub is_ready : OrderedMap String ProviderHealth → Bool
is_ready [] = false
is_ready ((id, health) ∷ rest) = health.status == "ready" || is_ready rest

pub data ReadyReply : Type 0 where
  ready not_ready : ReadyReply

-- the reply to `/ready` from the checks in the order in which they settle
unfoldable pub ready_reply : List (String × HealthCheck) → ReadyReply
unfolding is_ready get_provider_health
ready_reply checks = if is_ready (get_provider_health checks []) then ready else not_ready

-- an entry of `/v1/models`; `x_cmm` is there if the capability is known
pub record ModelEntry : Type 0 where
  pub id : String
  pub owned_by : String
  pub x_cmm : Option (ProviderCapability × ProtocolCapabilities)

abbrev x_cmm_of : DiscoveredModel → Option (ProviderCapability × ProtocolCapabilities)
x_cmm_of model = elim model.capability [
  | none ↦ none
  | some capability ↦
      some (capability, protocol_capabilities_for (some capability) (some model.provider))
]

unfoldable pub model_entry : DiscoveredModel → ModelEntry
unfolding protocol_capabilities_for template
model_entry model = record {
  id = model.id;
  owned_by = template ("cmm:" ∷ provider_text model.provider ∷ []);
  x_cmm = x_cmm_of model;
}

-- `/v1/models`
unfoldable pub models_reply : {A : Type 0} → ProviderRegistry A → List ModelEntry
unfolding model_entry list_models
models_reply r = map model_entry (list_models r)

pub record ProviderCount : Type 0 where
  pub id : String
  pub model_count : ℕ

-- `models.filter((m) => m.provider === id).length`
unfoldable pub count_models : String → List DiscoveredModel → ℕ
count_models id [] = 0
count_models id (m ∷ models) =
    let rest = count_models id models in if provider_text m.provider == id then suc rest else rest

-- `/v1/cmm/providers`
unfoldable pub providers_reply : {A : Type 0} → ProviderRegistry A → List ProviderCount
unfolding count_models list_models
providers_reply r =
    let models = list_models r in
    map (λ id. record { id = id; model_count = count_models id models })
      (to_set (map (λ m. provider_text m.provider) models))

pub record HealthEntry : Type 0 where
  pub id : String
  pub status : String
  pub detail : Option String

-- the loop of `/v1/cmm/health`; an empty detail is left out
unfoldable pub health_entries : OrderedMap String ProviderHealth → List HealthEntry
health_entries [] = []
health_entries ((id, health) ∷ rest) =
    record { id = id; status = health.status; detail = filled health.detail } ∷ health_entries rest
