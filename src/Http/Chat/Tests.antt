-- ===== src/Http/Chat/Tests.antt =====
-- The Chat Completions surface on concrete requests.
use cmm_routers.Prelude.OrderedMap.{get}
use cmm_routers.Prelude.OrderedMap.{put}
use cmm_routers.Http.Chat.Aggregate.{sort_calls}
use cmm_routers.Core.ToolArguments.{validate_tool_arguments}
use cmm_routers.Http.Chat.Messages.{parse_tool_calls}
use cmm_routers.Core.ToolAccess.Decision.{chat_access}
use cmm_routers.Core.ToolPolicy.{enforce_provider_tool_policy}
use cmm_routers.Core.ToolAccess.History.{inspect_tool_history}
use cmm_routers.Core.ToolAccess.Decision.{resolve_tool_access}
use cmm_routers.Http.Chat.History.{reject_chat_only_tools}
use cmm_routers.Http.Chat.Messages.{parse_reasoning_effort}
use cmm_routers.Core.ToolPolicy.{parse_chat_tool_choice}
use cmm_routers.Http.Reply.{optional_bool}
use cmm_routers.Http.Chat.Tools.{parse_tools}
use cmm_routers.Core.ToolResultBound.{assert_tool_results_within_bound}
use cmm_routers.Http.Reply.{filled_string}
use cmm_routers.Core.RequestControls.{reject_unsupported_controls}
use Prim.Native.String.{String}
use cmm_routers.Prelude.{
  ℕ, true, false, Option, none, some, List, [], ◌∷◌, ◌++◌, ◌≡◌, refl, map, if◌then◌else◌, string_eq,
  nat_eq, ◌==◌,
}
use cmm_routers.Core.Json.{Json, str, arr, obj, Fields, end, field, as_record}
use cmm_routers.Core.Errors.{Result, ok, router_error, provider_protocol_error}
use cmm_routers.Core.Profile.{chat, chat_and_tools}
use cmm_routers.Core.Model.{
  chatgpt, DiscoveredModel, RouterRequest, RouterFunctionTool, RouterMessage, user, assistant,
}
use cmm_routers.Core.RouterEvent.{RouterEvent, text_delta, tool_call_delta, completed, tool_calls}
use cmm_routers.Core.ToolAccess.Types.{ToolAccessConfig}
use cmm_routers.Http.Reply.{next, mapped}
use cmm_routers.Http.Admit.Checked.{IsToolFree}
use cmm_routers.Http.Chat.Messages.{parse_messages}
use cmm_routers.Http.Chat.RoundTrip.{write_messages, parse_messages-write_messages}
use cmm_routers.Http.Chat.Plain.{plain_reply}
use cmm_routers.Http.Chat.Stream.{Chunk, chunk, done, exhausted, stream_chunks, stream_reply}
use cmm_routers.Http.Chat.Stream.Grammar.{IsReply, stream_reply-IsReply}
use cmm_routers.Http.Chat.Stream.Agreement.{assemble, received, live, assemble-stream_chunks}
use cmm_routers.Http.Chat.Handler.{prepare}
use cmm_routers.Http.Chat.Admission.{prepare_chat}

abbrev model : DiscoveredModel
model = record {
  id = "chatgpt/m";
  provider = chatgpt;
  upstream_model = "m";
  display_name = "M";
  capability = some chat_and_tools;
}

abbrev resolve : String → Result DiscoveredModel
resolve id = ok model

abbrev config : ToolAccessConfig
config = record { scoped_actions = none; granted_actions = none }

abbrev greeting : RouterMessage
greeting = record {
  role = user;
  content = some "hi";
  images = none;
  tool_call_id = none;
  name = none;
  tool_result_status = none;
  tool_calls = none;
}

abbrev calling : RouterMessage
calling = record {
  role = assistant;
  content = none;
  images = none;
  tool_call_id = none;
  name = some "helper";
  tool_result_status = none;
  tool_calls = some (record { id = "call-1"; name = "look"; arguments = "{}" } ∷ []);
}

abbrev body : Json
body =
    obj (
      field "model" (str "chatgpt/m") (field "messages" (arr (write_messages (greeting ∷ []))) end))

abbrev request : RouterRequest
request = record {
  request_id = "req-1";
  profile = some chat;
  model = model;
  messages = greeting ∷ [];
  tools = [];
  stream = false;
  max_output_tokens = none;
  reasoning_effort = none;
  tool_choice = none;
  parallel_tool_calls = none;
}

runs : prepare resolve (λ p. true) chat config "req-1" (some body) ≡ next request
unfolding prepare reject_unsupported_controls filled_string parse_messages
    assert_tool_results_within_bound parse_tools optional_bool parse_chat_tool_choice
    parse_reasoning_effort reject_chat_only_tools resolve_tool_access inspect_tool_history
    enforce_provider_tool_policy chat_access parse_tool_calls
runs = refl

prepare_chat_example :
    (b : Fields) × (as_record (some body) ≡ some b)
    × IsToolFree b request.messages
    × (request.tools ≡ [])
prepare_chat_example = prepare_chat resolve (λ p. true) config "req-1" (some body) request refl runs

parse_messages-write_messages_example :
    parse_messages (some (arr (write_messages (greeting ∷ calling ∷ []))))
    ≡ some (greeting ∷ calling ∷ [])
parse_messages-write_messages_example = parse_messages-write_messages greeting (calling ∷ []) (
  record { no_status = refl; with_text = tt; of_assistant = tt },
  (record { no_status = refl; with_text = tt; of_assistant = refl }, tt),
)

abbrev declaration : Json
declaration = obj (
    field "type" (str "function")
      (field "function" (obj (field "name" (str "look") (field "parameters" (obj end) end))) end))

abbrev look : RouterFunctionTool
look = record { name = "look"; description = none; parameters = obj end }

abbrev json_parse : String → Option Json
json_parse text = if text == "{}" then some (obj end) else none

abbrev deltas : List (RouterEvent ℕ)
deltas =
    text_delta "one "
    ∷ tool_call_delta 0 "call-1" (some "look") (some "{")
    ∷ text_delta "two"
    ∷ tool_call_delta 0 "call-1" none (some "}")
    ∷ []

stream_reply-IsReply_example :
    (chunks : List Chunk) × (stream_reply json_parse
        (live (deltas ++ completed tool_calls ∷ []))
        exhausted
        false
      ≡ map chunk chunks ++ (if false then [] else done ∷ []))
    × IsReply json_parse chunks
stream_reply-IsReply_example =
    stream_reply-IsReply json_parse (live (deltas ++ completed tool_calls ∷ [])) exhausted false

assemble-stream_chunks_example :
    assemble
      (stream_chunks json_parse [] (live (deltas ++ completed tool_calls ∷ [])) exhausted).0
      ""
      []
    ≡ received (plain_reply json_parse (deltas ++ completed tool_calls ∷ []) none)
assemble-stream_chunks_example =
    assemble-stream_chunks json_parse (λ id. 0) (λ index. "call-1") deltas (completed tool_calls)
      exhausted (tt, ((refl, refl, refl), (tt, ((refl, refl, tt), tt)))) tt

abbrev cut_off : List (RouterEvent ℕ)
cut_off = tool_call_delta 0 "call-1" (some "look") (some "{") ∷ completed tool_calls ∷ []

-- A malformed call ends the stream with an error, and no chunk names the call.
malformed :
    stream_reply json_parse (live cut_off) exhausted false
    ≡ chunk (
        Chunk.failure (
          mapped (
            router_error provider_protocol_error
              "Provider emitted tool arguments that are not valid JSON; refusing to fabricate arguments")))
      ∷ done
      ∷ []
unfolding stream_reply validate_tool_arguments sort_calls put get
malformed = refl
