-- ===== src/Http/Anthropic/Handler.antt =====
-- src/http/anthropic-messages.ts: the handler of `/v1/messages` up to the run of the provider.
use Prim.Native.String.{String}
use cmm_routers.Prelude.{Bool, true, Option, none}
use cmm_routers.Core.Json.{Json, Fields, prop, as_record, as_number, is_bool}
use cmm_routers.Core.Errors.{Result}
use cmm_routers.Core.Profile.{RouterProfile}
use cmm_routers.Core.Model.{ProviderId, DiscoveredModel, RouterRequest}
use cmm_routers.Core.ToolResultBound.{assert_tool_results_within_bound}
use cmm_routers.Core.ToolAccess.Types.{ToolAccessConfig}
use cmm_routers.Http.Reply.{
  HttpError, http_error, Step, next, ◌>>=◌, ◌>>◌, or_send, or_mapped, optional_bool, filled_string,
}
use cmm_routers.Http.Admit.{ParsedBody, serve}
use cmm_routers.Http.Anthropic.Errors.{answered}
use cmm_routers.Http.Anthropic.Request.{parse_anthropic_request}

abbrev pub invalid_body : String → HttpError
invalid_body message = http_error 400 "invalid_request_error" message

module _ (json_stringify : Json → String) (to_text : Option Json → String) where
  -- the checks of the body alone
  unfoldable pub parse_body : Fields → Step ParsedBody
  unfolding parse_anthropic_request
  parse_body body = do
    model_id ←
        or_send (filled_string (prop body "model"))
          (invalid_body "model must be a non-empty string")
    optional_bool (prop body "stream") (invalid_body "stream must be a boolean")
    parsed ← or_mapped answered (parse_anthropic_request json_stringify to_text body)
    or_mapped answered (assert_tool_results_within_bound parsed.messages)
    next (record {
      model_id = model_id;
      messages = parsed.messages;
      tools = parsed.tools;
      stream = is_bool (prop body "stream") true;
      max_output_tokens = as_number (prop body "max_tokens");
      parallel_tool_calls = parsed.parallel_tool_calls;
      tool_choice = parsed.tool_choice;
      reasoning_effort = none;
    })

  module _ (resolve : String → Result DiscoveredModel) (has_adapter : ProviderId → Bool) where
    -- The request that the provider is run with, or the error that is sent instead.
    unfoldable pub prepare :
        RouterProfile → ToolAccessConfig → (request_id : String) → Option Json → Step RouterRequest
    unfolding parse_body serve
    prepare profile config request_id raw = do
      body ← or_send (as_record raw) (invalid_body "Body must be an object")
      b ← parse_body body
      serve answered resolve has_adapter (invalid_body "Unknown provider") profile config request_id
          body b
