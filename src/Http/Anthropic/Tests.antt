-- ===== src/Http/Anthropic/Tests.antt =====
-- The Messages surface on concrete requests.
use cmm_routers.Core.ToolAccess.Decision.{chat_access}
use cmm_routers.Core.ToolPolicy.{enforce_provider_tool_policy}
use cmm_routers.Core.ToolAccess.History.{inspect_tool_history}
use cmm_routers.Core.ToolAccess.Decision.{resolve_tool_access}
use cmm_routers.Http.Chat.History.{reject_chat_only_tools}
use cmm_routers.Core.ToolResultBound.{assert_tool_results_within_bound}
use cmm_routers.Http.Reply.{optional_bool}
use cmm_routers.Http.Reply.{filled_string}
use Prim.Native.String.{String}
use cmm_routers.Prelude.{
  ℕ, true, false, Option, none, some, List, [], ◌∷◌, ◌≡◌, refl, if◌then◌else◌, string_eq, nat_eq,
  ◌==◌,
}
use cmm_routers.Core.Json.{Json, str, arr, obj, nil, cons, Fields, end, field, as_record, num}
use cmm_routers.Core.Errors.{Result, ok}
use cmm_routers.Core.Profile.{chat, chat_and_tools}
use cmm_routers.Core.Model.{chatgpt, DiscoveredModel, RouterRequest, RouterMessage, user}
use cmm_routers.Core.RouterEvent.{RouterEvent, text_delta, tool_call_delta, completed, tool_calls}
use cmm_routers.Core.ToolAccess.Types.{ToolAccessConfig}
use cmm_routers.Http.Reply.{next}
use cmm_routers.Http.Admit.Checked.{IsToolFree}
use cmm_routers.Http.Chat.Stream.{exhausted}
use cmm_routers.Http.Chat.Stream.Agreement.{live}
use cmm_routers.Http.Anthropic.Request.{ParsedAnthropicRequest, parse_anthropic_request}
use cmm_routers.Http.Anthropic.Handler.{prepare}
use cmm_routers.Http.Anthropic.Admission.{prepare_anthropic_chat}
use cmm_routers.Http.Anthropic.Stream.{Frame, message_start, stream_message}
use cmm_routers.Http.Anthropic.Stream.Protocol.{Conforms, stream_message-Conforms}

abbrev json_stringify : Json → String
json_stringify j = "null"

abbrev to_text : Option Json → String
to_text j = "undefined"

abbrev model : DiscoveredModel
model = record {
  id = "chatgpt/m";
  provider = chatgpt;
  upstream_model = "m";
  display_name = "M";
  capability = some chat_and_tools;
}

abbrev resolve : String → Result DiscoveredModel
resolve id = ok model

abbrev config : ToolAccessConfig
config = record { scoped_actions = none; granted_actions = none }

abbrev greeting : RouterMessage
greeting = record {
  role = user;
  content = some "hi";
  images = none;
  tool_call_id = none;
  name = none;
  tool_result_status = none;
  tool_calls = none;
}

abbrev spoken : Json
spoken = obj (field "role" (str "user") (field "content" (str "hi") end))

abbrev fields : Fields
fields =
    field "model" (str "chatgpt/m")
      (field "max_tokens" (num 16) (field "messages" (arr (cons spoken nil)) end))

abbrev request : RouterRequest
request = record {
  request_id = "req-1";
  profile = some chat;
  model = model;
  messages = greeting ∷ [];
  tools = [];
  stream = false;
  max_output_tokens = some (num 16);
  reasoning_effort = none;
  tool_choice = none;
  parallel_tool_calls = none;
}

runs :
    prepare json_stringify to_text resolve (λ p. true) chat config "req-1" (some (obj fields))
    ≡ next request
unfolding prepare filled_string optional_bool assert_tool_results_within_bound
    reject_chat_only_tools resolve_tool_access inspect_tool_history enforce_provider_tool_policy
    chat_access
runs = refl

prepare_anthropic_chat_example :
    (b : Fields) × (as_record (some (obj fields)) ≡ some b)
    × IsToolFree b request.messages
    × (request.tools ≡ [])
prepare_anthropic_chat_example =
    prepare_anthropic_chat json_stringify to_text resolve (λ p. true) config "req-1"
      (some (obj fields)) request refl runs

abbrev parsed : ParsedAnthropicRequest
parsed = record {
  messages = greeting ∷ [];
  tools = [];
  parallel_tool_calls = none;
  tool_choice = none;
}

parses : parse_anthropic_request json_stringify to_text fields ≡ ok parsed
unfolding parse_anthropic_request
parses = refl

abbrev json_parse : String → Option Json
json_parse text = if text == "{}" then some (obj end) else none

abbrev deltas : List (RouterEvent ℕ)
deltas =
    text_delta "one "
    ∷ tool_call_delta 0 "call-1" (some "look") (some "{")
    ∷ tool_call_delta 0 "call-1" none (some "}")
    ∷ completed tool_calls
    ∷ []

stream_message-Conforms_example :
    (frames : List Frame) × (stream_message json_parse false (live deltas) exhausted
      ≡ message_start ∷ frames)
    × Conforms [] [] frames
stream_message-Conforms_example = stream_message-Conforms json_parse (live deltas) exhausted
