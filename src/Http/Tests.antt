-- ===== src/Http/Tests.antt =====
-- The hook, the routes that only read and what is published, on concrete inputs.
use cmm_routers.Core.RequestControls.{request_control_truth}
use cmm_routers.Identity.Label.{normalize_client_label}
use cmm_routers.Identity.Bearer.{tokens_equal}
use cmm_routers.Identity.Bearer.{bearer_credential}
use cmm_routers.Identity.Bearer.{verify_bearer}
use cmm_routers.Identity.Bearer.{strip_prefix}
use Prim.Native.String.{String}
use cmm_routers.Prelude.{ℕ, Option, none, some, [], ◌∷◌, ◌≡◌, refl, string_eq, length}
use cmm_routers.Prelude.OrderedMap.{get, put}
use cmm_routers.Core.Json.{Json, num, Fields, end, field}
use cmm_routers.Core.Profile.{ProviderCapability, agent, chat_and_tools}
use cmm_routers.Core.Model.{DiscoveredModel, chatgpt, claude}
use cmm_routers.Core.RequestControls.{explicit_unsupported}
use cmm_routers.Core.Capabilities.{openai_responses, protocol_capabilities_for}
use cmm_routers.Registry.{ProviderRegistry}
use cmm_routers.Identity.Profiles.{ServerTokens, ResolvedIdentity, resolve_request_identity}
use cmm_routers.Http.Published.{Accepts, published_is_refused}
use cmm_routers.Http.Server.{
  Incoming, identified, pre_handler, IsOnlyCredential, pre_handler-IsOnlyCredential,
  providers_reply, models_reply,
}
use cmm_routers.Http.Server.Counts.{total_of, providers_reply-total}

abbrev digest : String → String
digest token = token

abbrev tokens : ServerTokens
tokens = record {
  cmmchat_token = "c-secret";
  code_router_token = some "r-secret";
  legacy_qoder_token = none;
}

abbrev incoming : Incoming
incoming = record {
  url = "/v1/messages?beta=true";
  authorization = none;
  api_key = some "r-secret";
  client_label = none;
}

abbrev identity : ResolvedIdentity
identity = record { profile = agent; client_label = none }

is_identified : pre_handler digest tokens incoming ≡ identified identity
unfolding pre_handler strip_prefix resolve_request_identity verify_bearer bearer_credential
    tokens_equal normalize_client_label
is_identified = refl

pre_handler-IsOnlyCredential_example :
    (c : String) × IsOnlyCredential incoming c
    × (resolve_request_identity digest (some c) tokens none ≡ some identity)
pre_handler-IsOnlyCredential_example =
    pre_handler-IsOnlyCredential digest tokens incoming identity is_identified

abbrev opus : DiscoveredModel
opus = record {
  id = "claude/opus";
  provider = claude;
  upstream_model = "opus";
  display_name = "Opus";
  capability = none;
}

abbrev gpt : DiscoveredModel
gpt = record {
  id = "chatgpt/gpt";
  provider = chatgpt;
  upstream_model = "gpt";
  display_name = "GPT";
  capability = some chat_and_tools;
}

abbrev registry : ProviderRegistry ℕ
registry = record {
  providers =
      ("claude", record { id = claude; client = 1 })
      ∷ ("chatgpt", record { id = chatgpt; client = 2 })
      ∷ [];
  discovery_cache =
      ("claude", record { models = opus ∷ opus ∷ []; timestamp = 1; error = none })
      ∷ ("chatgpt", record { models = gpt ∷ []; timestamp = 2; error = none })
      ∷ [];
}

providers_reply-total_example : total_of (providers_reply registry) ≡ length (models_reply registry)
providers_reply-total_example = providers_reply-total registry

abbrev capability : Option ProviderCapability
capability = some chat_and_tools

abbrev json_stringify : Json → String
json_stringify j = "null"

abbrev to_text : Option Json → String
to_text j = "undefined"

abbrev body : Fields
body = field "temperature" (num 1) end

temperature_is_published :
    get
      ((protocol_capabilities_for none (some claude)).protocols openai_responses).request_controls
      "temperature"
    ≡ some explicit_unsupported
unfolding protocol_capabilities_for get request_control_truth put
temperature_is_published = refl

published_is_refused_example : ¬ Accepts json_stringify to_text openai_responses body
published_is_refused_example =
    published_is_refused json_stringify to_text openai_responses none (some claude) body
      "temperature" temperature_is_published refl
