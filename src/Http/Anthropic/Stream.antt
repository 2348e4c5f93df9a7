-- ===== src/Http/Anthropic/Stream.antt =====
-- src/http/anthropic-messages.ts: the streamed message. What the handler pulls from the provider is an
-- input, each event with whether the client's connection is destroyed when it arrives.
pub mod Indices
pub mod Used
pub mod Protocol
use Prim.Native.String
use Prim.Native.String.{String}
use cmm_routers.Prelude.{
  ℕ, suc, Bool, true, false, Option, none, some, List, [], ◌∷◌, ◌++◌, string_eq, nat_eq, ◌==◌,
  get_or_else, if◌then◌else◌, map,
}
use cmm_routers.Prelude.OrderedMap.{OrderedMap, get, put}
use cmm_routers.Core.Json.{Json}
use cmm_routers.Core.Errors.{Result, ok, err}
use cmm_routers.Core.ToolArguments.{parse_tool_arguments}
use cmm_routers.Core.RouterEvent.{
  RouterEvent, text_delta, tool_call_delta, usage, completed, error, FinishReason, Thrown, router,
}
use cmm_routers.Http.Reply.{HttpError}
use cmm_routers.Http.Chat.Aggregate.{PendingCall, sort_calls, values}
use cmm_routers.Http.Chat.Stream.{Arrival, PullEnd, exhausted, raised}
use cmm_routers.Http.Anthropic.Errors.{anthropic_error_for}
use cmm_routers.Http.Anthropic.Plain.{StopReason, end_turn, anthropic_stop_reason}

-- An event on the wire.
pub data Frame : Type 0 where
  message_start : Frame
  text_start : ℕ → Frame
  text : ℕ → String → Frame
  tool_start : ℕ → (id name : String) → Frame
  tool_input : ℕ → (partial_json : String) → Frame
  block_stop : ℕ → Frame
  message_delta : StopReason → (output_tokens : ℕ) → Frame
  message_stop : Frame
  failure : HttpError → Frame

-- the variables of the loop
pub record Writer : Type 0 where
  pub next_index : ℕ
  pub text_index : Option ℕ
  pub tool_blocks : OrderedMap ℕ PendingCall
  pub output_tokens : ℕ

abbrev pub fresh : Writer
fresh = record { next_index = 0; text_index = none; tool_blocks = []; output_tokens = 0 }

pub data Reaction : Type 0 where
  go_on : List Frame → Writer → Reaction
  break : List Frame → Reaction

abbrev pub stop_text : Option ℕ → List Frame
stop_text none = []
stop_text (some index) = block_stop index ∷ []

unfoldable pub on_text : Option ℕ → String → Writer → Reaction
on_text none s w =
    go_on (text_start w.next_index ∷ text w.next_index s ∷ [])
      (record w { next_index = suc w.next_index; text_index = some w.next_index })
on_text (some index) s w = go_on (text index s ∷ []) w

abbrev pub new_block : ℕ → String → (name delta : Option String) → PendingCall
new_block index id name delta = record {
  index = index;
  id = id;
  name = get_or_else name "";
  arguments = String.◌++◌ "" (get_or_else delta "");
}

abbrev pub grown_block : Option String → PendingCall → PendingCall
grown_block delta block = record block {
  arguments = String.◌++◌ block.arguments (get_or_else delta "");
}

-- the buffer after a delta: a new block takes the next index
unfoldable pub on_delta :
    Option PendingCall → ℕ → String → (name delta : Option String) → Writer → Writer
on_delta none key id name delta w = record w {
  next_index = suc w.next_index;
  text_index = none;
  tool_blocks = put w.tool_blocks key (new_block w.next_index id name delta);
}
on_delta (some block) key id name delta w = record w {
  text_index = none;
  tool_blocks = put w.tool_blocks key (grown_block delta block);
}

abbrev pub follow : Reaction → (Writer → List Frame × Bool) → List Frame × Bool
follow (break frames) next = (frames, false)
follow (go_on frames w) next = let (rest, torn) = next w in (frames ++ rest, torn)

abbrev pub input_frames : PendingCall → List Frame
input_frames b = if b.arguments == "" then [] else tool_input b.index b.arguments ∷ []

-- `closeToolBlocks` and the end of the message, or its end after an error
abbrev pub end_frames : Bool → List PendingCall → StopReason → ℕ → List Frame
end_frames true blocks reason tokens =
    map (λ b. block_stop b.index) blocks ++ message_delta reason tokens ∷ message_stop ∷ []
end_frames false blocks reason tokens = message_stop ∷ []

module _ (json_parse : String → Option Json) where
  -- the loop that opens the tool blocks; the flag is false if it met arguments that are malformed
  unfoldable pub open_tools : List PendingCall → List Frame × Bool
  open_tools [] = ([], true)
  open_tools (b ∷ blocks) = elim (parse_tool_arguments json_parse b.arguments) [
    | err e ↦ (failure (anthropic_error_for (router e)) ∷ [], false)
    | ok input ↦
        let (rest, sound) = open_tools blocks in
        (tool_start b.index b.id b.name ∷ input_frames b ++ rest, sound)
  ]

  unfoldable pub on_completed : FinishReason → Writer → List Frame
  unfolding open_tools anthropic_stop_reason
  on_completed reason w =
      let blocks = sort_calls (values w.tool_blocks) in
      let (opened, sound) = open_tools blocks in
      stop_text w.text_index
      ++ (opened ++ end_frames sound blocks (anthropic_stop_reason reason) w.output_tokens)

  module _ {F : Type 0} where
    unfoldable pub react : RouterEvent F → Writer → Reaction
    unfolding on_text on_delta on_completed
    react (text_delta s) w = on_text w.text_index s w
    react (tool_call_delta key id name delta) w =
        go_on (stop_text w.text_index) (on_delta (get w.tool_blocks key) key id name delta w)
    react (usage u) w =
        go_on [] (record w { output_tokens = get_or_else u.output_tokens w.output_tokens })
    react (completed reason) w = break (on_completed reason w)
    react (error e) w = break (failure (anthropic_error_for e) ∷ [])

    -- The frames after `message_start`, and whether the provider's run is torn down.
    unfoldable pub stream_frames : Writer → List (Arrival F) → PullEnd → List Frame × Bool
    unfolding react
    stream_frames w [] exhausted = ([], false)
    stream_frames w [] (raised e true) = ([], false)
    stream_frames w [] (raised e false) = (failure (anthropic_error_for e) ∷ [], false)
    stream_frames w (a ∷ arrivals) ending = elim a.destroyed [
      | true ↦ ([], true)
      | false ↦ follow (react a.event w) (λ w'. stream_frames w' arrivals ending)
    ]

    -- Everything that is written; `destroyed` is the state of the connection at the start.
    unfoldable pub stream_message : Bool → List (Arrival F) → PullEnd → List Frame
    unfolding stream_frames
    stream_message destroyed arrivals ending =
        let (frames, torn) = stream_frames fresh arrivals ending in
        if destroyed then frames else message_start ∷ frames
