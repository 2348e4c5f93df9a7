-- ===== src/Providers/Cavoti/Frames/Joined.antt =====
-- src/providers/cavoti/client.ts: a body that comes in several reads, and its whole text.
use Prim.Native.String
use Prim.Native.String.{String}
use Prim.Native.String.len
use text.Mathlib.TextLemmas.{nil-append, append_assoc}
use text.Mathlib.TextPositions.{len-append}
use mathlib.Core.List.{append_assoc as list_append_assoc}
use cmm_routers.Prelude.{
  ◌≤◌, false, Option, none, some, List, [], ◌∷◌, ◌++◌, ltb, nat_eq, string_eq, ◌≡◌, refl, sym, ap,
  ◌∙◌, subst, arith, inl, inr, All,
}
use cmm_routers.Core.Json.{Json}
use cmm_routers.Core.Errors.{Result-cases}
use cmm_routers.Providers.Cavoti.Frames.{
  split, max_sse_buffer_bytes, drain_last, Yield, and_then, parse_sse_frame, yield_frames,
  read_chunks, parse_sse_body,
}
use cmm_routers.Providers.Cavoti.Frames.Splitting.{
  HasNoReturn, HasNoReturn-append, split-IsRest, drain_lem, drain_last-append,
}

-- all the text of the body
abbrev pub joined : List String → String → String
joined [] flush = flush
joined (chunk ∷ chunks) flush = String.◌++◌ chunk (joined chunks flush)

joined-HasNoReturn :
    (chunks : List String) (flush : String)
    → All HasNoReturn chunks
    → HasNoReturn flush
    → HasNoReturn (joined chunks flush)
joined-HasNoReturn [] flush h k = k
joined-HasNoReturn (chunk ∷ chunks) flush h k =
    HasNoReturn-append chunk (joined chunks flush) h.0 (joined-HasNoReturn chunks flush h.1 k)

and_then_assoc : (a b c : Yield) → and_then (and_then a b) c ≡ and_then a (and_then b c)
and_then_assoc (xs, some e) b c = refl
and_then_assoc (xs, none) (ys, some e) c = refl
and_then_assoc (xs, none) (ys, none) (zs, e) = ap (λ rs. (rs, e)) (list_append_assoc xs ys zs)

module _ (json_parse : String → Option Json) where
  -- what comes of some frames and then others
  yield_frames-append :
      (frames more : List String)
      → yield_frames json_parse (frames ++ more)
        ≡ and_then (yield_frames json_parse frames) (yield_frames json_parse more)
  unfolding yield_frames
  yield_frames-append [] more = refl
  yield_frames-append (frame ∷ frames) more =
      elim (Result-cases (parse_sse_frame json_parse frame)) [
        | inl (e, bad) ↦ rw (bad, yield_frames) refl
        | inr (none, skipped) ↦ rw (skipped, yield_frames) (yield_frames-append frames more)
        | inr (some fields, good) ↦
            rw (good, yield_frames)
              (ap (and_then (fields ∷ [], none)) (yield_frames-append frames more)
                ∙ sym (
                    and_then_assoc (fields ∷ [], none) (yield_frames json_parse frames)
                      (yield_frames json_parse more)))
      ]

  read_from :
      (buffer : String) (chunks : List String) (flush : String)
      → HasNoReturn buffer
      → All HasNoReturn chunks
      → HasNoReturn flush
      → String.len (String.◌++◌ buffer (joined chunks flush)) ≤ max_sse_buffer_bytes
      → read_chunks json_parse buffer chunks flush
        ≡ yield_frames json_parse (drain_last (String.◌++◌ buffer (joined chunks flush)))
  unfolding read_chunks
  read_from buffer [] flush b h k l = refl
  read_from buffer (chunk ∷ chunks) flush b h k l =
      let more = joined chunks flush in
      let buffered = String.◌++◌ buffer chunk in
      let clean = HasNoReturn-append buffer chunk b h.0 in
      let carry = (split false buffered).1 in
      let all : String.◌++◌ buffer (String.◌++◌ chunk more) ≡ String.◌++◌ buffered more =
        sym (append_assoc buffer chunk more) in
      let size : String.len (String.◌++◌ buffered more) ≤ max_sse_buffer_bytes =
        subst (λ t. String.len t ≤ max_sse_buffer_bytes) all l in
      let fits : ltb max_sse_buffer_bytes (String.len buffered) ≡ false =
        ground (arith, size, len-append buffered more) in
      let rest = (split-IsRest buffered clean).0 in
      let later =
        read_from carry chunks flush rest.1 h.1 k
          (omega (arith, size, rest.0, len-append buffered more, len-append carry more)) in
      let frames = (split false buffered).0 in
      let whole = joined-HasNoReturn chunks flush h.1 k in
      let parts = drain_last-append buffered more clean whole in
      rw (fits, read_chunks)
        (ap (λ r. and_then (yield_frames json_parse r.0) (read_chunks json_parse r.1 chunks flush))
            (drain_lem buffered clean)
          ∙ ap (and_then (yield_frames json_parse frames)) later
          ∙ sym (yield_frames-append frames (drain_last (String.◌++◌ carry more)))
          ∙ ap (yield_frames json_parse) (sym parts ∙ ap drain_last (sym all)))

  -- However a body without carriage returns is cut into reads, what comes of it is what comes of the
  -- frames of its whole text, one after the other: the same records, and after them the error of the
  -- first frame that is malformed, if there is one. The body is not larger than the bound on the
  -- buffer.
  pub parse_sse_body-joined :
      (chunks : List String) (flush : String)
      → All HasNoReturn chunks
      → HasNoReturn flush
      → String.len (joined chunks flush) ≤ 1048576
      → parse_sse_body json_parse (some (chunks, flush))
        ≡ yield_frames json_parse (drain_last (joined chunks flush))
  unfolding parse_sse_body
  parse_sse_body-joined chunks flush h k l =
      let none_before = nil-append (joined chunks flush) in
      read_from "" chunks flush tt h k (subst (λ t. String.len t ≤ 1048576) (sym none_before) l)
      ∙ ap (λ t. yield_frames json_parse (drain_last t)) none_before
