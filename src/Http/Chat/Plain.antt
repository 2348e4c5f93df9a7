-- ===== src/Http/Chat/Plain.antt =====
-- src/http/openai-chat.ts: the reply of a request that does not stream, up to the ids and times in it
-- and the redaction of its text.
use Prim.Native.String.{String}
use cmm_routers.Prelude.{Option, none, some, List, map}
use cmm_routers.Core.Json.{Json}
use cmm_routers.Core.Errors.{RouterError}
use cmm_routers.Core.ToolArguments.{validate_tool_arguments}
use cmm_routers.Core.RouterEvent.{RouterEvent, Thrown}
use cmm_routers.Http.Reply.{HttpError, map_router_error_to_http, mapped}
use cmm_routers.Http.Chat.Aggregate.{
  AggregatedCompletion, Aggregated, failed, done, aggregate_events,
}

pub data PlainReply : Type 0 where
  refused : HttpError → PlainReply
  completion : AggregatedCompletion → PlainReply

abbrev pub or_completion : Option RouterError → AggregatedCompletion → PlainReply
or_completion none c = completion c
or_completion (some e) c = refused (mapped e)

module _ (json_parse : String → Option Json) where
  unfoldable pub conclude : Aggregated AggregatedCompletion → PlainReply
  conclude (failed e) = refused (map_router_error_to_http e)
  conclude (done c) =
      or_completion (validate_tool_arguments json_parse (map (λ call. call.arguments) c.tool_calls))
        c

  -- The reply from the events that the run has yielded, and what it has thrown, if it has.
  unfoldable pub plain_reply : {F : Type 0} → List (RouterEvent F) → Option Thrown → PlainReply
  unfolding conclude
  plain_reply events (some thrown) = refused (map_router_error_to_http thrown)
  plain_reply events none = conclude (aggregate_events events)
