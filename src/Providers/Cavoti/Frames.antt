-- ===== src/Providers/Cavoti/Frames.antt =====
-- src/providers/cavoti/client.ts: `parseSseFrame` and `parseSseBody`. The decoded text of each read
-- is an input, as is what the decoder has left at the end; JSON.parse is a parameter.
pub mod Splitting
pub mod Joined
pub mod Written
use Prim.Native.Char.{Char, code}
use Prim.Native.String
use Prim.Native.String.{String}
use Prim.Native.String.len
use cmm_routers.Prelude.{
  ℕ, Bool, true, false, Option, none, some, List, [], ◌∷◌, ◌++◌, ltb, nat_eq, ◌==◌, string_eq,
  if◌then◌else◌, ◌&&◌, ◌||◌,
}
use cmm_routers.Core.Json.{Json, obj, Fields}
use cmm_routers.Core.Errors.{Result, ok, err, RouterError, router_error, provider_protocol_error}
use cmm_routers.Core.ToolArguments.{trim_start, trim}

-- buffer.replace(/\r\n/g, "\n")
abbrev starts_line : String → Bool
starts_line String.[] = false
starts_line (String.◌∷◌ c s) = code c == 10

unfoldable pub normalize : String → String
normalize String.[] = ""
normalize (String.◌∷◌ c s) = elim (code c == 13) [
  | true ↦ let rest = normalize s in if starts_line s then rest else String.◌∷◌ c rest
  | false ↦ String.◌∷◌ c (normalize s)
]

-- put a character before the first frame, or before the rest where no frame is complete
abbrev pub cons_first : Char → List String × String → List String × String
cons_first c ([], carry) = ([], String.◌∷◌ c carry)
cons_first c (frame ∷ frames, carry) = (String.◌∷◌ c frame ∷ frames, carry)

abbrev pub newline : Char
newline = "\n"

-- The loop over the boundaries "\n\n": the complete frames and the rest. The flag is that a newline
-- stands before the text.
unfoldable pub split : Bool → String → List String × String
split false String.[] = ([], "")
split true String.[] = ([], "\n")
split pending (String.◌∷◌ c s) = elim (code c == 10) [
  | true ↦ elim pending [
    | true ↦ let (frames, carry) = split false s in ("" ∷ frames, carry)
    | false ↦ split true s
  ]
  | false ↦ elim pending [
    | true ↦ cons_first newline (cons_first c (split false s))
    | false ↦ cons_first c (split false s)
  ]
]

-- what `drain` takes from the buffer, and what it leaves there
unfoldable pub drain : String → List String × String
unfolding normalize split
drain buffer = split false (normalize buffer)

abbrev pub max_sse_buffer_bytes : ℕ
max_sse_buffer_bytes = 1048576

abbrev pub overflow : RouterError
overflow =
    router_error provider_protocol_error "Cavoti SSE frame exceeded the bounded parser buffer"

abbrev pub no_body : RouterError
no_body = router_error provider_protocol_error "Cavoti streaming response has no body"

-- the frames at the end of the body: what is left is one, unless it is blank
unfoldable pub with_last : List String × String → List String
with_last (frames, carry) = if trim carry == "" then frames else frames ++ carry ∷ []

unfoldable pub drain_last : String → List String
unfolding drain with_last
drain_last buffer = with_last (drain buffer)

-- frame.split(/\r?\n/)
abbrev pub cons_line : Char → List String → List String
cons_line c [] = String.◌∷◌ c "" ∷ []
cons_line c (line ∷ lines) = String.◌∷◌ c line ∷ lines

unfoldable pub split_lines : String → List String
split_lines String.[] = "" ∷ []
split_lines (String.◌∷◌ c s) =
    let rest = split_lines s in
    if code c == 10
    then "" ∷ rest
    else if code c == 13 && starts_line s
    then rest
    else cons_line c rest

-- the rest of a text that starts with a prefix
abbrev after : (prefix : String) → String → Option String
after String.[] s = some s
after (String.◌∷◌ c prefix) String.[] = none
after (String.◌∷◌ c prefix) (String.◌∷◌ d s) =
    let rest = after prefix s in if code c == code d then rest else none

-- the lines that start with "data:", without it and the space that follows
unfoldable pub data_lines : List String → List String
unfolding trim_start
data_lines [] = []
data_lines (line ∷ lines) = elim (after "data:" line) [
  | none ↦ data_lines lines
  | some rest ↦ trim_start rest ∷ data_lines lines
]

abbrev join_lines : String → List String → String
join_lines first [] = first
join_lines first (line ∷ lines) = String.◌++◌ first (String.◌∷◌ newline (join_lines line lines))

abbrev pub malformed : RouterError
malformed = router_error provider_protocol_error "Cavoti returned malformed SSE JSON"

-- What comes of a body: the records that are yielded, and the error that is thrown after them.
abbrev pub Yield : Type 0
Yield = List Fields × Option RouterError

-- go on with what comes later, unless an error is thrown
abbrev pub and_then : Yield → Yield → Yield
and_then (records, some e) later = (records, some e)
and_then (records, none) (later, e) = (records ++ later, e)

module _ (json_parse : String → Option Json) where
  abbrev object_of : Option Json → Result (Option Fields)
  object_of (some (obj fields)) = ok (some fields)
  object_of _ = err malformed

  abbrev record_of : List String → Result (Option Fields)
  record_of [] = ok none
  record_of (line ∷ lines) =
      let payload = trim (join_lines line lines) in
      if payload == "" || payload == "[DONE]" then ok none else object_of (json_parse payload)

  unfoldable pub parse_sse_frame : String → Result (Option Fields)
  unfolding split_lines data_lines trim
  parse_sse_frame frame = record_of (data_lines (split_lines frame))

  -- `const parsed = parseSseFrame(frame); if (parsed) yield parsed;` for each of the frames
  unfoldable pub yield_frames : List String → Yield
  unfolding parse_sse_frame
  yield_frames [] = ([], none)
  yield_frames (frame ∷ frames) = elim (parse_sse_frame frame) [
    | err e ↦ ([], some e)
    | ok none ↦ yield_frames frames
    | ok (some record_) ↦ let (later, e) = yield_frames frames in (record_ ∷ later, e)
  ]

  -- the loop over the reads, with the buffer
  unfoldable pub read_chunks : (buffer : String) → List String → (flush : String) → Yield
  unfolding drain drain_last yield_frames
  read_chunks buffer [] flush = yield_frames (drain_last (String.◌++◌ buffer flush))
  read_chunks buffer (chunk ∷ chunks) flush =
      elim (ltb max_sse_buffer_bytes (String.len (String.◌++◌ buffer chunk))) [
        | true ↦ ([], some overflow)
        | false ↦
            let (frames, carry) = drain (String.◌++◌ buffer chunk) in
            and_then (yield_frames frames) (read_chunks carry chunks flush)
      ]

  -- the body, if the response has one: the decoded reads, and what the decoder has left at the end
  unfoldable pub parse_sse_body : Option (List String × String) → Yield
  unfolding read_chunks
  parse_sse_body none = ([], some no_body)
  parse_sse_body (some (chunks, flush)) = read_chunks "" chunks flush
