-- ===== src/Http/Chat/Stream.antt =====
-- src/http/openai-chat.ts: the streamed reply. What the handler pulls from the provider is an input,
-- each event with whether the client's connection is destroyed when it arrives.
pub mod Grammar
pub mod Buffer
pub mod Agreement
use Prim.Native.String
use Prim.Native.String.{String}
use cmm_routers.Prelude.{
  ℕ, Bool, true, false, Option, none, some, List, [], ◌∷◌, ◌++◌, string_eq, nat_eq, ◌==◌,
  get_or_else, if◌then◌else◌, map, ◌≡◌, refl, All, arith,
}
use cmm_routers.Prelude.OrderedMap.{OrderedMap, get, put}
use cmm_routers.Core.Json.{Json}
use cmm_routers.Core.Errors.{RouterError}
use cmm_routers.Core.ToolArguments.{validate_tool_arguments}
use cmm_routers.Core.RouterEvent.{
  RouterEvent, text_delta, tool_call_delta, usage, completed, error, FinishReason, Thrown,
}
use cmm_routers.Http.Reply.{HttpError, map_router_error_to_http, mapped}
use cmm_routers.Http.Chat.Aggregate.{PendingCall, existing_call, sort_calls, values}

-- What a chunk of the stream says.
pub data Chunk : Type 0 where
  content : (text : String) → Chunk
  call : (index : ℕ) (id : String) (name arguments : Option String) → Chunk
  finish : FinishReason → Chunk
  failure : HttpError → Chunk

-- What is written to the connection.
pub data Written : Type 0 where
  chunk : Chunk → Written
  done : Written

pub record Arrival (F : Type 0) : Type 0 where
  pub event : RouterEvent F
  pub destroyed : Bool

-- How the pulling ends: the provider's stream is over, or it throws.
pub data PullEnd : Type 0 where
  exhausted : PullEnd
  raised : (thrown : Thrown) (destroyed : Bool) → PullEnd

-- What one event does: chunks and the calls so far, or the last chunks.
pub data Reaction : Type 0 where
  go_on : List Chunk → OrderedMap ℕ PendingCall → Reaction
  break : List Chunk → Reaction

abbrev pub appended : String → Option String → String
appended old none = old
appended old (some delta) = String.◌++◌ old delta

-- the delta of a call, put into the buffer
unfoldable pub buffer_delta :
    ℕ → String → (name delta : Option String) → OrderedMap ℕ PendingCall → OrderedMap ℕ PendingCall
buffer_delta index id name delta calls =
    let existing = existing_call (get calls index) index id name in
    put calls index (record {
      index = existing.index;
      id = existing.id;
      name = get_or_else name existing.name;
      arguments = appended existing.arguments delta;
    })

-- `call.name.length > 0 ? { name: call.name } : {}`
abbrev pub unless_empty : String → Option String
unless_empty s = if s == "" then none else some s

abbrev pub chunk_of : PendingCall → Chunk
chunk_of c = call c.index c.id (unless_empty c.name) (unless_empty c.arguments)

unfoldable pub finish_calls : Option RouterError → List PendingCall → FinishReason → List Chunk
finish_calls (some e) calls reason = failure (mapped e) ∷ []
finish_calls none calls reason = map chunk_of calls ++ finish reason ∷ []

-- what is written after a reaction, with the rest of the loop
abbrev pub follow : Reaction → (OrderedMap ℕ PendingCall → List Chunk × Bool) → List Chunk × Bool
follow (break chunks) next = (chunks, false)
follow (go_on chunks calls) next = let (rest, torn) = next calls in (chunks ++ rest, torn)

module _ (json_parse : String → Option Json) {F : Type 0} where
  unfoldable pub react : RouterEvent F → OrderedMap ℕ PendingCall → Reaction
  unfolding buffer_delta finish_calls
  react (text_delta text) calls = go_on (content text ∷ []) calls
  react (tool_call_delta index id name delta) calls =
      go_on [] (buffer_delta index id name delta calls)
  react (usage u) calls = go_on [] calls
  react (completed reason) calls =
      let streamed = sort_calls (values calls) in
      break (
        finish_calls (validate_tool_arguments json_parse (map (λ c. c.arguments) streamed)) streamed
          reason)
  react (error e) calls = break (failure (map_router_error_to_http e) ∷ [])

  -- The chunks that are written, and whether the provider's run is torn down.
  unfoldable pub stream_chunks :
      OrderedMap ℕ PendingCall → List (Arrival F) → PullEnd → List Chunk × Bool
  unfolding react
  stream_chunks calls [] exhausted = ([], false)
  stream_chunks calls [] (raised e true) = ([], false)
  stream_chunks calls [] (raised e false) = (failure (map_router_error_to_http e) ∷ [], false)
  stream_chunks calls (a ∷ arrivals) ending = elim a.destroyed [
    | true ↦ ([], true)
    | false ↦ follow (react a.event calls) (λ calls'. stream_chunks calls' arrivals ending)
  ]

  -- Everything that is written; `destroyed` is the state of the connection at the `finally`.
  unfoldable pub stream_reply : List (Arrival F) → PullEnd → Bool → List Written
  unfolding stream_chunks
  stream_reply arrivals ending destroyed =
      let (chunks, torn) = stream_chunks [] arrivals ending in
      map chunk chunks ++ (if destroyed then [] else done ∷ [])
