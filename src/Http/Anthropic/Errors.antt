-- ===== src/Http/Anthropic/Errors.antt =====
-- src/http/anthropic-messages.ts: `anthropicErrorFor`. The body of an error is its type and message.
use cmm_routers.Prelude.{String}
use cmm_routers.Core.Errors.{
  RouterError, RouterErrorCode, invalid_request, unknown_provider, unknown_model,
  unsupported_capability, provider_unavailable, provider_auth_required, provider_permission_denied,
  provider_quota_exhausted, provider_rate_limited, provider_timeout, provider_protocol_error,
  router_unauthorized, router_misconfigured, router_internal_error,
}
use cmm_routers.Core.RouterEvent.{Thrown, router, other}
use cmm_routers.Http.Reply.{HttpError, http_error, map_router_error_to_http}

unfoldable pub anthropic_code : RouterErrorCode → String → HttpError
anthropic_code invalid_request message = http_error 400 "invalid_request_error" message
anthropic_code unknown_provider message = http_error 400 "invalid_request_error" message
anthropic_code unknown_model message = http_error 400 "invalid_request_error" message
anthropic_code unsupported_capability message = http_error 400 "invalid_request_error" message
anthropic_code provider_auth_required message =
    http_error 401 "authentication_error" "Provider authentication required"
anthropic_code provider_permission_denied message = http_error 403 "permission_error" message
anthropic_code provider_quota_exhausted message = http_error 429 "rate_limit_error" message
anthropic_code provider_rate_limited message = http_error 429 "rate_limit_error" message
anthropic_code provider_timeout message = http_error 504 "api_error" message
anthropic_code provider_unavailable message = http_error 503 "overloaded_error" message
anthropic_code provider_protocol_error message = http_error 500 "api_error" "Provider error"
anthropic_code router_unauthorized message = http_error 500 "api_error" "Provider error"
anthropic_code router_misconfigured message = http_error 500 "api_error" "Provider error"
anthropic_code router_internal_error message = http_error 500 "api_error" "Provider error"

unfoldable pub anthropic_error_for : Thrown → HttpError
unfolding anthropic_code map_router_error_to_http
anthropic_error_for (router e) = anthropic_code e.code e.message
anthropic_error_for (other code) =
    let reply = map_router_error_to_http (other code) in
    http_error reply.status "api_error" reply.message

abbrev pub answered : RouterError → HttpError
answered e = anthropic_error_for (router e)
