-- ===== src/Http/Responses/Stream.antt =====
-- src/http/openai-responses.ts: the streamed response. What the handler pulls from the provider is an
-- input, each event with whether the client's connection is destroyed when it arrives.
pub mod Taken
pub mod Protocol
use Prim.Native.String
use Prim.Native.String.{String}
use cmm_routers.Prelude.{
  ℕ, suc, Bool, true, false, Option, none, some, List, [], ◌∷◌, ◌++◌, leb, string_eq, nat_eq, ◌==◌,
  get_or_else, if◌then◌else◌, map,
}
use cmm_routers.Prelude.OrderedMap.{OrderedMap, get, put}
use cmm_routers.Core.Json.{Json}
use cmm_routers.Core.Errors.{RouterError}
use cmm_routers.Core.ToolArguments.{validate_tool_arguments}
use cmm_routers.Core.RouterEvent.{RouterEvent, text_delta, tool_call_delta, usage, completed, error}
use cmm_routers.Http.Reply.{HttpError, map_router_error_to_http, mapped}
use cmm_routers.Http.Chat.Aggregate.{PendingCall, sort_calls, values, call_of}
use cmm_routers.Http.Chat.Stream.{Arrival, PullEnd, exhausted, raised}
use cmm_routers.Http.Responses.Plain.{OutputItem, message, function_call}

-- An event on the wire; an item stands at its output index.
pub data Frame : Type 0 where
  created : Frame
  item_added : ℕ → OutputItem → Frame
  part_added : ℕ → Frame
  output_text_delta : ℕ → String → Frame
  output_text_done : ℕ → String → Frame
  part_done : ℕ → String → Frame
  arguments_delta : ℕ → (delta name : String) → Frame
  arguments_done : ℕ → (arguments name : String) → Frame
  item_done : ℕ → OutputItem → Frame
  response_completed : (output : List OutputItem) → Frame
  response_failed : HttpError → Frame
  done : Frame

-- the variables of the loop
pub record Writer : Type 0 where
  pub next_index : ℕ
  pub text_index : Option ℕ
  pub text_buffer : String
  pub calls : OrderedMap ℕ PendingCall

abbrev pub fresh : Writer
fresh = record { next_index = 0; text_index = none; text_buffer = ""; calls = [] }

pub data Reaction : Type 0 where
  go_on : List Frame → Writer → Reaction
  break : List Frame → Reaction

abbrev pub follow : Reaction → (Writer → List Frame × Bool) → List Frame × Bool
follow (break frames) next = (frames, false)
follow (go_on frames w) next = let (rest, torn) = next w in (frames ++ rest, torn)

unfoldable pub on_text : Option ℕ → String → Writer → Reaction
on_text none s w =
    go_on
      (item_added w.next_index (message "")
        ∷ part_added w.next_index
        ∷ output_text_delta w.next_index s
        ∷ [])
      (record w {
        next_index = suc w.next_index;
        text_index = some w.next_index;
        text_buffer = String.◌++◌ w.text_buffer s;
      })
on_text (some index) s w =
    go_on (output_text_delta index s ∷ []) (record w { text_buffer = String.◌++◌ w.text_buffer s })

abbrev pub new_call : ℕ → String → (name delta : Option String) → PendingCall
new_call index id name delta = record {
  index = index;
  id = id;
  name = get_or_else name "";
  arguments = get_or_else delta "";
}

abbrev pub grown_call : (name delta : Option String) → PendingCall → PendingCall
grown_call name delta call = record call {
  name = get_or_else name call.name;
  arguments = String.◌++◌ call.arguments (get_or_else delta "");
}

-- the buffer after a delta: a new call takes the next index
unfoldable pub on_delta :
    Option PendingCall → ℕ → String → (name delta : Option String) → Writer → Writer
on_delta none key id name delta w = record w {
  next_index = suc w.next_index;
  calls = put w.calls key (new_call w.next_index id name delta);
}
on_delta (some call) key id name delta w = record w {
  calls = put w.calls key (grown_call name delta call);
}

abbrev pub delta_frames : PendingCall → List Frame
delta_frames c = if c.arguments == "" then [] else arguments_delta c.index c.arguments c.name ∷ []

-- the whole life of one call
abbrev pub call_frames : PendingCall → List Frame
call_frames c =
    item_added c.index (function_call (record { id = c.id; name = c.name; arguments = "" }))
    ∷ (delta_frames c
        ++ arguments_done c.index c.arguments c.name
          ∷ item_done c.index (function_call (call_of c))
          ∷ [])

unfoldable pub all_call_frames : List PendingCall → List Frame
all_call_frames [] = []
all_call_frames (c ∷ calls) = call_frames c ++ all_call_frames calls

-- the end of the text item
abbrev pub text_end : Option ℕ → String → List Frame
text_end none s = []
text_end (some index) s =
    output_text_done index s ∷ part_done index s ∷ item_done index (message s) ∷ []

abbrev text_entry : Option ℕ → String → OrderedMap ℕ OutputItem
text_entry none s = []
text_entry (some index) s = (index, message s) ∷ []

abbrev put_calls : OrderedMap ℕ OutputItem → List PendingCall → OrderedMap ℕ OutputItem
put_calls items [] = items
put_calls items (c ∷ calls) = put_calls (put items c.index (function_call (call_of c))) calls

-- `orderedOutput`: the items by their index
unfoldable pub insert_item : ℕ × OutputItem → OrderedMap ℕ OutputItem → OrderedMap ℕ OutputItem
insert_item e [] = e ∷ []
insert_item e (d ∷ items) =
    let rest = insert_item e items in if leb e.0 d.0 then e ∷ d ∷ items else d ∷ rest

unfoldable pub sort_items : OrderedMap ℕ OutputItem → OrderedMap ℕ OutputItem
unfolding insert_item
sort_items [] = []
sort_items (e ∷ items) = insert_item e (sort_items items)

unfoldable pub ordered_output : OrderedMap ℕ OutputItem → List OutputItem
unfolding sort_items
ordered_output items = values (sort_items items)

abbrev pub end_frames : Option RouterError → List PendingCall → List OutputItem → List Frame
end_frames (some e) calls output = response_failed (mapped e) ∷ []
end_frames none calls output = all_call_frames calls ++ response_completed output ∷ []

module _ (json_parse : String → Option Json) where
  unfoldable pub on_completed : Writer → List Frame
  unfolding all_call_frames ordered_output
  on_completed w =
      let calls = sort_calls (values w.calls) in
      text_end w.text_index w.text_buffer
      ++ end_frames (validate_tool_arguments json_parse (map (λ c. c.arguments) calls)) calls
          (ordered_output (put_calls (text_entry w.text_index w.text_buffer) calls))

  module _ {F : Type 0} where
    unfoldable pub react : RouterEvent F → Writer → Reaction
    unfolding on_text on_delta on_completed
    react (text_delta s) w = on_text w.text_index s w
    react (tool_call_delta key id name delta) w =
        go_on [] (on_delta (get w.calls key) key id name delta w)
    react (usage u) w = go_on [] w
    react (completed reason) w = break (on_completed w)
    react (error e) w = break (response_failed (map_router_error_to_http e) ∷ [])

    -- The frames after `created`, and whether the provider's run is torn down.
    unfoldable pub stream_frames : Writer → List (Arrival F) → PullEnd → List Frame × Bool
    unfolding react
    stream_frames w [] exhausted = ([], false)
    stream_frames w [] (raised e true) = ([], false)
    stream_frames w [] (raised e false) = (response_failed (map_router_error_to_http e) ∷ [], false)
    stream_frames w (a ∷ arrivals) ending = elim a.destroyed [
      | true ↦ ([], true)
      | false ↦ follow (react a.event w) (λ w'. stream_frames w' arrivals ending)
    ]

    -- Everything that is written; the flags are the states of the connection at the start and at
    -- the `finally`.
    unfoldable pub stream_response :
        (destroyed gone : Bool) → List (Arrival F) → PullEnd → List Frame
    unfolding stream_frames
    stream_response destroyed gone arrivals ending =
        let (frames, torn) = stream_frames fresh arrivals ending in
        (if destroyed then [] else created ∷ []) ++ (frames ++ (if gone then [] else done ∷ []))
