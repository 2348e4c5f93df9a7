-- ===== src/Http/Anthropic/Plain.antt =====
-- src/http/anthropic-messages.ts: the message of a request that does not stream, up to its id and
-- the redaction of its text.
use Prim.Native.String
use Prim.Native.String.{String}
use cmm_routers.Prelude.{
  ℕ, Option, none, some, List, [], ◌∷◌, ◌++◌, string_eq, ◌==◌, get_or_else, if◌then◌else◌,
}
use cmm_routers.Prelude.OrderedMap.{OrderedMap, get, put}
use cmm_routers.Core.Json.{Json}
use cmm_routers.Core.Errors.{Result, ok, err, ◌>>=◌}
use cmm_routers.Core.ToolArguments.{parse_tool_arguments}
use cmm_routers.Core.RouterEvent.{
  RouterEvent, text_delta, tool_call_delta, usage, completed, error, FinishReason, Thrown, router,
}
use cmm_routers.Http.Reply.{HttpError}
use cmm_routers.Http.Chat.Aggregate.{
  PendingCall, renamed, extended, existing_call, sort_calls, values,
}
use cmm_routers.Http.Anthropic.Errors.{anthropic_error_for}

pub data StopReason : Type 0 where
  end_turn tool_use max_tokens : StopReason

unfoldable pub anthropic_stop_reason : FinishReason → StopReason
anthropic_stop_reason FinishReason.tool_calls = tool_use
anthropic_stop_reason FinishReason.length = max_tokens
anthropic_stop_reason FinishReason.stop = end_turn

pub data ContentBlock : Type 0 where
  text : String → ContentBlock
  tool_call : (id name : String) (input : Json) → ContentBlock

-- the variables of the loop over the events
pub record Collected : Type 0 where
  pub text : String
  pub pending : OrderedMap String PendingCall
  pub stop_reason : StopReason
  pub input_tokens : ℕ
  pub output_tokens : ℕ

pub record Message : Type 0 where
  pub content : List ContentBlock
  pub stop_reason : StopReason
  pub input_tokens : ℕ
  pub output_tokens : ℕ

pub data PlainMessage : Type 0 where
  refused : HttpError → PlainMessage
  replied : Message → PlainMessage

abbrev pub nothing : Collected
nothing = record {
  text = "";
  pending = [];
  stop_reason = end_turn;
  input_tokens = 0;
  output_tokens = 0;
}

-- the call after a delta; its index is the one of its first delta
abbrev pub grown_call : (name delta : Option String) → PendingCall → PendingCall
grown_call name delta existing = record existing {
  name = renamed name existing.name;
  arguments = extended delta existing.arguments;
}

-- one round of the loop, for an event that is no error
unfoldable pub collect : {F : Type 0} → RouterEvent F → Collected → Collected
unfolding anthropic_stop_reason
collect (text_delta s) c = record c { text = String.◌++◌ c.text s }
collect (tool_call_delta index id name delta) c = record c {
  pending =
      put c.pending id (grown_call name delta (existing_call (get c.pending id) index id name));
}
collect (usage u) c = record c {
  input_tokens = get_or_else u.input_tokens c.input_tokens;
  output_tokens = get_or_else u.output_tokens c.output_tokens;
}
collect (completed reason) c = record c { stop_reason = anthropic_stop_reason reason }
collect (error e) c = c

abbrev text_content : String → List ContentBlock
text_content s = if s == "" then [] else text s ∷ []

module _ (json_parse : String → Option Json) where
  -- the loop over the calls, in the order of their index
  unfoldable pub tool_content : List PendingCall → Result (List ContentBlock)
  tool_content [] = ok []
  tool_content (c ∷ calls) =
      parse_tool_arguments json_parse c.arguments
      >>= (λ input. tool_content calls >>= (λ rest. ok (tool_call c.id c.name input ∷ rest)))

  abbrev reply_with : Collected → Result (List ContentBlock) → PlainMessage
  reply_with c (err e) = refused (anthropic_error_for (router e))
  reply_with c (ok tools) = replied (record {
    content = text_content c.text ++ tools;
    stop_reason = c.stop_reason;
    input_tokens = c.input_tokens;
    output_tokens = c.output_tokens;
  })

  module _ {F : Type 0} where
    unfoldable pub reply_from : Collected → List (RouterEvent F) → PlainMessage
    unfolding collect tool_content sort_calls anthropic_error_for
    reply_from c [] = reply_with c (tool_content (sort_calls (values c.pending)))
    reply_from c (error e ∷ events) = refused (anthropic_error_for e)
    reply_from c (text_delta s ∷ events) = reply_from (collect {F = F} (text_delta s) c) events
    reply_from c (tool_call_delta index id name delta ∷ events) =
        reply_from (collect {F = F} (tool_call_delta index id name delta) c) events
    reply_from c (usage u ∷ events) = reply_from (collect {F = F} (usage u) c) events
    reply_from c (completed reason ∷ events) =
        reply_from (collect {F = F} (completed reason) c) events

    -- The reply from the events that the run has yielded, and what it has thrown, if it has.
    unfoldable pub plain_message : List (RouterEvent F) → Option Thrown → PlainMessage
    unfolding reply_from
    plain_message events (some thrown) = refused (anthropic_error_for thrown)
    plain_message events none = reply_from nothing events
