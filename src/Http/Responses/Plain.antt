-- ===== src/Http/Responses/Plain.antt =====
-- src/http/openai-responses.ts: the response to a request that does not stream, up to its ids and
-- times and the redaction of its text.
use Prim.Native.String
use Prim.Native.String.{String}
use cmm_routers.Prelude.{
  ℕ, Option, none, some, List, [], ◌∷◌, ◌++◌, string_eq, ◌==◌, if◌then◌else◌, map,
}
use cmm_routers.Prelude.OrderedMap.{OrderedMap, get, put}
use cmm_routers.Core.Json.{Json}
use cmm_routers.Core.Errors.{RouterError}
use cmm_routers.Core.Model.{RouterToolCall}
use cmm_routers.Core.ToolArguments.{validate_tool_arguments}
use cmm_routers.Core.RouterEvent.{
  RouterEvent, text_delta, tool_call_delta, usage, completed, error, Thrown,
}
use cmm_routers.Http.Reply.{HttpError, map_router_error_to_http, mapped}
use cmm_routers.Http.Chat.Aggregate.{
  PendingCall, existing_call, or_old, sort_calls, values, call_of, CompletionUsage, usage_of,
}
use cmm_routers.Http.Anthropic.Plain.{grown_call}

pub data OutputItem : Type 0 where
  message : (text : String) → OutputItem
  function_call : RouterToolCall → OutputItem

pub record Response : Type 0 where
  pub output : List OutputItem
  pub usage : Option CompletionUsage

pub data PlainResponse : Type 0 where
  refused : HttpError → PlainResponse
  responded : Response → PlainResponse

-- the variables of the loop over the events
pub record Collected : Type 0 where
  pub content : String
  pub pending : OrderedMap String PendingCall
  pub input_tokens : Option ℕ
  pub output_tokens : Option ℕ

abbrev pub nothing : Collected
nothing = record { content = ""; pending = []; input_tokens = none; output_tokens = none }

abbrev message_item : String → List OutputItem
message_item s = if s == "" then [] else message s ∷ []

abbrev respond : Option RouterError → Collected → List RouterToolCall → PlainResponse
respond (some e) c calls = refused (mapped e)
respond none c calls = responded (record {
  output = message_item c.content ++ map function_call calls;
  usage = usage_of c.input_tokens c.output_tokens;
})

module _ {F : Type 0} where
  -- one round of the loop, for an event that is no error
  unfoldable pub collect : RouterEvent F → Collected → Collected
  collect (text_delta s) c = record c { content = String.◌++◌ c.content s }
  collect (tool_call_delta index id name delta) c = record c {
    pending =
        put c.pending id (grown_call name delta (existing_call (get c.pending id) index id name));
  }
  collect (usage u) c = record c {
    input_tokens = or_old u.input_tokens c.input_tokens;
    output_tokens = or_old u.output_tokens c.output_tokens;
  }
  collect (completed reason) c = c
  collect (error e) c = c

module _ (json_parse : String → Option Json) {F : Type 0} where
  unfoldable pub respond_from : Collected → List (RouterEvent F) → PlainResponse
  unfolding collect sort_calls map_router_error_to_http
  respond_from c [] =
      let calls = map call_of (sort_calls (values c.pending)) in
      respond (validate_tool_arguments json_parse (map (λ call. call.arguments) calls)) c calls
  respond_from c (error e ∷ events) = refused (map_router_error_to_http e)
  respond_from c (text_delta s ∷ events) = respond_from (collect {F = F} (text_delta s) c) events
  respond_from c (tool_call_delta index id name delta ∷ events) =
      respond_from (collect {F = F} (tool_call_delta index id name delta) c) events
  respond_from c (usage u ∷ events) = respond_from (collect {F = F} (usage u) c) events
  respond_from c (completed reason ∷ events) =
      respond_from (collect {F = F} (completed reason) c) events

  -- The response from the events that the run has yielded, and what it has thrown, if it has.
  unfoldable pub plain_response : List (RouterEvent F) → Option Thrown → PlainResponse
  unfolding respond_from
  plain_response events (some thrown) = refused (map_router_error_to_http thrown)
  plain_response events none = respond_from nothing events
