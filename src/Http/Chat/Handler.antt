-- ===== src/Http/Chat/Handler.antt =====
-- src/http/openai-chat.ts: the handler of `/v1/chat/completions` up to the run of the provider.
use Prim.Native.String.{String}
use cmm_routers.Prelude.{Bool, true, Option}
use cmm_routers.Core.Json.{Json, Fields, prop, as_record, as_number, is_bool}
use cmm_routers.Core.Errors.{Result}
use cmm_routers.Core.Profile.{RouterProfile}
use cmm_routers.Core.Model.{ProviderId, DiscoveredModel, RouterRequest}
use cmm_routers.Core.RequestControls.{
  openai_unsupported_semantic_controls, reject_unsupported_controls,
}
use cmm_routers.Core.ToolResultBound.{assert_tool_results_within_bound}
use cmm_routers.Core.ToolPolicy.{parse_chat_tool_choice}
use cmm_routers.Core.ToolAccess.Types.{ToolAccessConfig}
use cmm_routers.Http.Reply.{
  HttpError, http_error, mapped, Step, next, ◌>>=◌, ◌>>◌, or_send, or_mapped, unless_error,
  optional, optional_bool, filled_string,
}
use cmm_routers.Http.Admit.{ParsedBody, serve}
use cmm_routers.Http.Chat.Messages.{parse_messages, parse_reasoning_effort}
use cmm_routers.Http.Chat.Tools.{parse_tools}

abbrev pub bad_request : String → HttpError
bad_request message = http_error 400 "invalid_request" message

-- the checks of the body alone
unfoldable pub parse_body : Fields → Step ParsedBody
parse_body body = do
  unless_error mapped (
      reject_unsupported_controls body openai_unsupported_semantic_controls
        "The Chat Completions surface")
  model_id ←
      or_send (filled_string (prop body "model")) (bad_request "model must be a non-empty string")
  messages ←
      or_send (parse_messages (prop body "messages"))
        (bad_request "messages must be a non-empty array")
  or_mapped mapped (assert_tool_results_within_bound messages)
  tools ← or_mapped mapped (parse_tools (prop body "tools"))
  optional_bool (prop body "stream") (bad_request "stream must be a boolean")
  parallel ←
      optional_bool (prop body "parallel_tool_calls")
        (bad_request "parallel_tool_calls must be a boolean")
  choice ← optional mapped (parse_chat_tool_choice (prop body "tool_choice"))
  effort ← optional mapped (parse_reasoning_effort (prop body "reasoning_effort"))
  next (record {
    model_id = model_id;
    messages = messages;
    tools = tools;
    stream = is_bool (prop body "stream") true;
    max_output_tokens = as_number (prop body "max_tokens");
    parallel_tool_calls = parallel;
    tool_choice = choice;
    reasoning_effort = effort;
  })

module _ (resolve : String → Result DiscoveredModel) (has_adapter : ProviderId → Bool) where
  -- The request that the provider is run with, or the error that is sent instead.
  unfoldable pub prepare :
      RouterProfile → ToolAccessConfig → (request_id : String) → Option Json → Step RouterRequest
  unfolding parse_body serve
  prepare profile config request_id raw = do
    body ← or_send (as_record raw) (bad_request "Body must be an object")
    b ← parse_body body
    serve mapped resolve has_adapter (http_error 400 "unknown_provider" "Unknown provider") profile
        config request_id body b
