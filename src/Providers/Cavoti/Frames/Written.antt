-- ===== src/Providers/Cavoti/Frames/Written.antt =====
-- src/providers/cavoti/client.ts: a body as an upstream writes it, read back.
use Prim.Native.Char.{code}
use Prim.Native.String
use Prim.Native.String.{String}
use Prim.Native.String.len
use text.Mathlib.TextLemmas.{nil-append, cons-append}
use cmm_routers.Prelude.{
  ◌≤◌, false, Option, none, some, List, [], ◌∷◌, nat_eq, ◌==◌, string_eq, ◌≡◌, refl, sym, ap, ◌∙◌,
  subst, All, map,
}
use cmm_routers.Core.Json.{Json, Fields, obj}
use cmm_routers.Core.Errors.{ok}
use cmm_routers.Core.ToolArguments.{trim_start, trim}
use cmm_routers.Providers.Cavoti.Frames.{
  cons_first, cons_line, newline, split, split_lines, data_lines, with_last, drain_last, Yield,
  parse_sse_frame, yield_frames, parse_sse_body,
}
use cmm_routers.Providers.Cavoti.Frames.Splitting.{HasNoReturn, HasNoReturn-append, drain_lem}
use cmm_routers.Providers.Cavoti.Frames.Joined.{joined, parse_sse_body-joined}

-- "data: ", and then the payload
abbrev pub data_line : String → String
data_line payload =
    String.◌∷◌ "d"
      (String.◌∷◌ "a" (String.◌∷◌ "t" (String.◌∷◌ "a" (String.◌∷◌ ":" (String.◌∷◌ " " payload)))))

-- each payload is the one line of a frame
abbrev pub written : List String → String
written [] = ""
written (payload ∷ payloads) =
    String.◌++◌ (data_line payload) (String.◌∷◌ newline (String.◌∷◌ newline (written payloads)))

-- a text of one line
abbrev pub IsLine : String → Type 0
IsLine String.[] = Unit
IsLine (String.◌∷◌ c s) = (code c == 10 ≡ false) × (code c == 13 ≡ false) × IsLine s

data_line-IsLine : (payload : String) → IsLine payload → IsLine (data_line payload)
data_line-IsLine payload h =
    (refl, refl, (refl, refl, (refl, refl, (refl, refl, (refl, refl, (refl, refl, h))))))

IsLine-HasNoReturn : (s : String) → IsLine s → HasNoReturn s
IsLine-HasNoReturn String.[] h = tt
IsLine-HasNoReturn (String.◌∷◌ c s) h = (h.1, IsLine-HasNoReturn s h.2)

split-line :
    (s rest : String)
    → IsLine s
    → split false (String.◌++◌ s (String.◌∷◌ newline (String.◌∷◌ newline rest)))
      ≡ (s ∷ (split false rest).0, (split false rest).1)
unfolding split
split-line String.[] rest h = rw nil-append refl
split-line (String.◌∷◌ c s) rest h =
    rw (cons-append, h.0, split) (ap (cons_first c) (split-line s rest h.2))

split_lines-line : (s : String) → IsLine s → split_lines s ≡ s ∷ []
unfolding split_lines
split_lines-line String.[] h = refl
split_lines-line (String.◌∷◌ c s) h =
    rw (h.0, h.1, split_lines) (ap (cons_line c) (split_lines-line s h.2))

written-HasNoReturn :
    (payloads : List String) → All IsLine payloads → HasNoReturn (written payloads)
written-HasNoReturn [] h = tt
written-HasNoReturn (payload ∷ payloads) h =
    HasNoReturn-append (data_line payload) _
      (IsLine-HasNoReturn (data_line payload) (data_line-IsLine payload h.0))
      (refl, (refl, written-HasNoReturn payloads h.1))

split-written :
    (payloads : List String)
    → All IsLine payloads
    → split false (written payloads) ≡ (map data_line payloads, "")
unfolding split
split-written [] h = refl
split-written (payload ∷ payloads) h =
    split-line (data_line payload) (written payloads) (data_line-IsLine payload h.0)
    ∙ ap (λ r. (data_line payload ∷ r.0, r.1)) (split-written payloads h.1)

drain_last-written :
    (payloads : List String)
    → All IsLine payloads
    → drain_last (written payloads) ≡ map data_line payloads
unfolding drain_last with_last trim
drain_last-written payloads h =
    ap with_last
      (drain_lem (written payloads) (written-HasNoReturn payloads h) ∙ split-written payloads h)

-- the parts of a text without carriage returns have none
parts-HasNoReturn : (s t : String) → HasNoReturn (String.◌++◌ s t) → HasNoReturn s × HasNoReturn t
parts-HasNoReturn String.[] t h = (tt, subst HasNoReturn (nil-append t) h)
parts-HasNoReturn (String.◌∷◌ c s) t h =
    let h' : HasNoReturn (String.◌∷◌ c (String.◌++◌ s t)) =
      subst HasNoReturn (cons-append c s t) h in
    let rest = parts-HasNoReturn s t h'.1 in ((h'.0, rest.0), rest.1)

chunks-HasNoReturn :
    (chunks : List String) (flush : String)
    → HasNoReturn (joined chunks flush)
    → All HasNoReturn chunks × HasNoReturn flush
chunks-HasNoReturn [] flush h = (tt, h)
chunks-HasNoReturn (chunk ∷ chunks) flush h =
    let (first, later) = parts-HasNoReturn chunk (joined chunks flush) h in
    let rest = chunks-HasNoReturn chunks flush later in ((first, rest.0), rest.1)

module _ (json_parse : String → Option Json) where
  -- A payload that is the JSON text of an object, on one line and with no space around it.
  pub record IsPayload (payload : String) (fields : Fields) : Type 0 where
    pub line : IsLine payload
    pub trimmed_start : trim_start payload ≡ payload
    pub trimmed : trim payload ≡ payload
    pub filled : (payload == "") ≡ false
    pub not_done : (payload == "[DONE]") ≡ false
    pub parsed : json_parse payload ≡ some (obj fields)

  parse-data_line :
      (payload : String) (fields : Fields)
      → IsPayload payload fields
      → parse_sse_frame json_parse (data_line payload) ≡ ok (some fields)
  unfolding parse_sse_frame data_lines trim_start
  parse-data_line payload fields h =
      rw
        (
          split_lines-line (data_line payload) (data_line-IsLine payload h.line),
          h.trimmed_start,
          h.trimmed,
          h.filled,
          h.not_done,
          h.parsed,
        )
        refl

  yield_frames-data_line :
      (records : List (String × Fields))
      → All (λ r. IsPayload r.0 r.1) records
      → yield_frames json_parse (map data_line (map (λ r. r.0) records))
        ≡ (map (λ r. r.1) records, none)
  unfolding yield_frames
  yield_frames-data_line [] h = refl
  yield_frames-data_line ((payload, fields) ∷ records) h =
      rw (parse-data_line payload fields h.0, yield_frames)
        (ap (λ (y : Yield). (fields ∷ y.0, y.1)) (yield_frames-data_line records h.1))

  are_lines :
      (records : List (String × Fields))
      → All (λ r. IsPayload r.0 r.1) records
      → All IsLine (map (λ r. r.0) records)
  are_lines [] h = tt
  are_lines (r ∷ records) h = (h.0.line, are_lines records h.1)

  -- What an upstream writes is read back, however it is cut into reads: a body of frames, each with
  -- the JSON text of an object on one `data:` line, gives exactly these objects in order and no error,
  -- if it is not larger than the bound on the buffer.
  pub parse_sse_body-written :
      (records : List (String × Fields)) (chunks : List String) (flush : String)
      → All (λ r. IsPayload r.0 r.1) records
      → joined chunks flush ≡ written (map (λ r. r.0) records)
      → String.len (joined chunks flush) ≤ 1048576
      → parse_sse_body json_parse (some (chunks, flush)) ≡ (map (λ r. r.1) records, none)
  parse_sse_body-written records chunks flush h e size =
      let payloads = map (λ (r : String × Fields). r.0) records in
      let lines = are_lines records h in
      let clean =
        chunks-HasNoReturn chunks flush
          (subst HasNoReturn (sym e) (written-HasNoReturn payloads lines)) in
      parse_sse_body-joined json_parse chunks flush clean.0 clean.1 size
      ∙ ap (λ text. yield_frames json_parse (drain_last text)) e
      ∙ ap (yield_frames json_parse) (drain_last-written payloads lines)
      ∙ yield_frames-data_line records h
