-- ===== src/Http/Responses/Tests.antt =====
-- The Responses surface on concrete requests.
use cmm_routers.Core.ToolAccess.Decision.{chat_access}
use cmm_routers.Core.ToolPolicy.{enforce_provider_tool_policy}
use cmm_routers.Core.ToolAccess.History.{inspect_tool_history}
use cmm_routers.Core.ToolAccess.Decision.{resolve_tool_access}
use cmm_routers.Core.ToolResultBound.{assert_tool_results_within_bound}
use cmm_routers.Http.Responses.Input.{input_to_messages}
use cmm_routers.Http.Responses.Handler.{capability_body}
use cmm_routers.Http.Chat.History.{reject_chat_only_tools}
use cmm_routers.Http.Chat.Messages.{parse_reasoning_effort}
use cmm_routers.Http.Responses.Handler.{parse_reasoning}
use cmm_routers.Core.ToolPolicy.{parse_responses_tool_choice}
use cmm_routers.Http.Reply.{optional_bool}
use cmm_routers.Http.Responses.Tools.{normalize_response_input_additional_tools}
use cmm_routers.Http.Responses.Handler.{parse_instructions}
use cmm_routers.Http.Reply.{filled_string}
use cmm_routers.Core.RequestControls.{reject_unsupported_controls}
use Prim.Native.String.{String}
use cmm_routers.Prelude.{
  ℕ, true, false, Option, none, some, List, [], ◌∷◌, ◌++◌, ◌≡◌, refl, if◌then◌else◌, string_eq,
  nat_eq, ◌==◌, any,
}
use cmm_routers.Core.Json.{Json, str, obj, arr, nil, cons, Fields, end, field, as_record, prop}
use cmm_routers.Core.Errors.{Result, ok}
use cmm_routers.Core.Profile.{chat, chat_and_tools}
use cmm_routers.Core.Model.{chatgpt, DiscoveredModel, RouterRequest, RouterMessage, user, system}
use cmm_routers.Core.RouterEvent.{RouterEvent, text_delta, tool_call_delta, completed, tool_calls}
use cmm_routers.Core.ToolAccess.Types.{ToolAccessConfig}
use cmm_routers.Http.Reply.{next}
use cmm_routers.Http.Admit.Checked.{IsToolFree}
use cmm_routers.Http.Chat.Stream.{exhausted}
use cmm_routers.Http.Chat.Stream.Agreement.{live}
use cmm_routers.Http.Responses.Handler.{Draft, parse_draft, prepare}
use cmm_routers.Http.Responses.Hidden.{hides_tools, input_items}
use cmm_routers.Http.Responses.Admission.{prepare_responses_chat}
use cmm_routers.Http.Responses.Stream.{Frame, created, done, stream_response}
use cmm_routers.Http.Responses.Stream.Protocol.{Conforms, stream_response-Conforms}

abbrev model : DiscoveredModel
model = record {
  id = "chatgpt/m";
  provider = chatgpt;
  upstream_model = "m";
  display_name = "M";
  capability = some chat_and_tools;
}

abbrev resolve : String → Result DiscoveredModel
resolve id = ok model

abbrev config : ToolAccessConfig
config = record { scoped_actions = none; granted_actions = none }

abbrev said : RouterMessage
said = record {
  role = user;
  content = some "hi";
  images = none;
  tool_call_id = none;
  name = none;
  tool_result_status = none;
  tool_calls = none;
}

abbrev no_more_tools : Json
no_more_tools = obj (
    field "type" (str "additional_tools")
      (field "role" (str "developer") (field "tools" (arr nil) end)))

abbrev user_item : Json
user_item = obj (field "role" (str "user") (field "content" (str "hi") end))

abbrev raw : Json
raw = obj (
    field "model" (str "chatgpt/m") (
      field "instructions" (str "be brief")
        (field "input" (arr (cons no_more_tools (cons user_item nil))) end)))

abbrev request : RouterRequest
request = record {
  request_id = "req-1";
  profile = some chat;
  model = model;
  messages = record said { role = system; content = some "be brief" } ∷ said ∷ [];
  tools = [];
  stream = false;
  max_output_tokens = none;
  reasoning_effort = none;
  tool_choice = none;
  parallel_tool_calls = none;
}

runs : prepare resolve (λ p. true) chat config "req-1" (some raw) ≡ next request
unfolding prepare reject_unsupported_controls filled_string parse_instructions
    normalize_response_input_additional_tools optional_bool parse_responses_tool_choice
    parse_reasoning parse_reasoning_effort reject_chat_only_tools capability_body input_to_messages
    assert_tool_results_within_bound resolve_tool_access inspect_tool_history
    enforce_provider_tool_policy chat_access
runs = refl

prepare_responses_chat_example :
    (b : Fields) × (d : Draft) × (as_record (some raw) ≡ some b)
    × (parse_draft b ≡ next d)
    × (d.tools ≡ [])
    × (any hides_tools (input_items (prop b "input")) ≡ false)
    × IsToolFree b request.messages
    × (request.tools ≡ [])
prepare_responses_chat_example =
    prepare_responses_chat resolve (λ p. true) config "req-1" (some raw) request refl runs

abbrev json_parse : String → Option Json
json_parse text = if text == "{}" then some (obj end) else none

abbrev deltas : List (RouterEvent ℕ)
deltas =
    text_delta "one "
    ∷ tool_call_delta 0 "call-1" (some "look") (some "{")
    ∷ tool_call_delta 0 "call-1" none (some "}")
    ∷ completed tool_calls
    ∷ []

stream_response-Conforms_example :
    (frames : List Frame) × (stream_response json_parse false false (live deltas) exhausted
      ≡ created ∷ (frames ++ (if false then [] else done ∷ [])))
    × Conforms [] [] frames
stream_response-Conforms_example = stream_response-Conforms json_parse (live deltas) exhausted false
