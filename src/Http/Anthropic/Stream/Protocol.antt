-- ===== src/Http/Anthropic/Stream/Protocol.antt =====
-- src/http/anthropic-messages.ts: the frames of a message open and close their content blocks.
use Prim.Native.String.{String}
use mathlib.Core.List.{append_assoc, append-nil}
use cmm_routers.Prelude.{
  ℕ, Bool, true, false, Option, none, some, List, [], ◌∷◌, ◌++◌, string_eq, nat_eq, ◌==◌,
  if◌then◌else◌, contains, ◌≡◌, refl, arith, Bool-cases, inl, inr, ◌⊎◌, ==_refl, sym, subst, ◌∙◌,
}
use cmm_routers.Prelude.OrderedMap.{get}
use cmm_routers.Core.Json.{Json}
use cmm_routers.Core.Errors.{RouterError, Result-cases, ok, err}
use cmm_routers.Core.ToolArguments.{parse_tool_arguments}
use cmm_routers.Core.RouterEvent.{
  RouterEvent, router, text_delta, tool_call_delta, usage, completed, error, FinishReason,
}
use cmm_routers.Http.Chat.Aggregate.{PendingCall, values}
use cmm_routers.Http.Chat.Stream.{Arrival, PullEnd, exhausted, raised}
use cmm_routers.Http.Anthropic.Errors.{anthropic_error_for}
use cmm_routers.Http.Anthropic.Plain.{StopReason}
use cmm_routers.Http.Anthropic.Stream.Indices.{indices, sort_rising}
use cmm_routers.Http.Anthropic.Stream.Used.{
  IsWriter, AreFresh, below_is_new, apart-AreFresh, on_text-IsWriter, on_delta-IsWriter,
}
use cmm_routers.Http.Anthropic.Stream.{
  Frame, message_start, text_start, text, tool_start, tool_input, block_stop, message_delta,
  message_stop, failure, Writer, fresh, stop_text, on_text, on_delta, input_frames, open_tools,
  end_frames, on_completed, react, follow, stream_frames, stream_message,
}

abbrev without : ℕ → List ℕ → List ℕ
without index [] = []
without index (i ∷ open_blocks) =
    let rest = without index open_blocks in if i == index then open_blocks else i ∷ rest

-- Frames that keep to the protocol after the block indices `used` were taken, while the blocks `live`
-- are open: an index is taken once, a block is written to and closed only while it is open, none is
-- open at the `message_delta` that comes right before the end of the message, and after an error
-- nothing can come but that end, whatever is open.
abbrev pub Conforms : (used live : List ℕ) → List Frame → Type 0
Conforms used live [] = Unit
Conforms used live (message_start ∷ frames) = ⊥
Conforms used live (text_start index ∷ frames) =
    (contains used index ≡ false) × Conforms (used ++ index ∷ []) (live ++ index ∷ []) frames
Conforms used live (text index s ∷ frames) =
    (contains live index ≡ true) × Conforms used live frames
Conforms used live (tool_start index id name ∷ frames) =
    (contains used index ≡ false) × Conforms (used ++ index ∷ []) (live ++ index ∷ []) frames
Conforms used live (tool_input index s ∷ frames) =
    (contains live index ≡ true) × Conforms used live frames
Conforms used live (block_stop index ∷ frames) =
    (contains live index ≡ true) × Conforms used (without index live) frames
Conforms used live (message_delta reason tokens ∷ frames) =
    (live ≡ []) × (frames ≡ message_stop ∷ [])
Conforms used live (message_stop ∷ frames) = ⊥
Conforms used live (failure e ∷ frames) = (frames ≡ []) ⊎ (frames ≡ message_stop ∷ [])

contains-append : (live : List ℕ) (index : ℕ) → contains (live ++ index ∷ []) index ≡ true
contains-append [] index = ground (arith, ==_refl index)
contains-append (i ∷ live) index = ground (arith, contains-append live index)

closes :
    (used : List ℕ) (blocks : List PendingCall) (reason : StopReason) (tokens : ℕ)
    → Conforms used (indices blocks) (end_frames true blocks reason tokens)
closes used [] reason tokens = (refl, refl)
closes used (b ∷ blocks) reason tokens =
    (ground (arith, ==_refl b.index), rw (==_refl b.index) (closes used blocks reason tokens))

with_input :
    (b : PendingCall) (used live : List ℕ) (frames : List Frame)
    → contains live b.index ≡ true
    → Conforms used live frames
    → Conforms used live (input_frames b ++ frames)
with_input b used live frames is_open h = elim (Bool-cases (b.arguments == "")) [
  | inl empty ↦ rw empty h
  | inr full ↦ rw full (is_open, h)
]

module _ (json_parse : String → Option Json) where
  opens_bad :
      (b : PendingCall) (blocks : List PendingCall) (e : RouterError)
      → parse_tool_arguments json_parse b.arguments ≡ err e
      → open_tools json_parse (b ∷ blocks) ≡ (failure (anthropic_error_for (router e)) ∷ [], false)
  unfolding open_tools
  opens_bad b blocks e h = rw (h, open_tools) refl

  opens_good :
      (b : PendingCall) (blocks : List PendingCall) (input : Json)
      → parse_tool_arguments json_parse b.arguments ≡ ok input
      → open_tools json_parse (b ∷ blocks) ≡ (
        tool_start b.index b.id b.name ∷ input_frames b ++ (open_tools json_parse blocks).0,
        (open_tools json_parse blocks).1,
      )
  unfolding open_tools
  opens_good b blocks input h = rw (h, open_tools) refl

  opens :
      (blocks all : List PendingCall) (used live : List ℕ) (reason : StopReason) (tokens : ℕ)
      → AreFresh used (indices blocks)
      → live ++ indices blocks ≡ indices all
      → Conforms used live (
          (open_tools json_parse blocks).0
          ++ end_frames (open_tools json_parse blocks).1 all reason tokens)
  unfolding open_tools
  opens [] all used live reason tokens a e =
      subst (λ l. Conforms used l (end_frames true all reason tokens)) (sym e ∙ append-nil live)
        (closes used all reason tokens)
  opens (b ∷ blocks) all used live reason tokens a e =
      elim (Result-cases (parse_tool_arguments json_parse b.arguments)) [
        | inl (e, bad) ↦ rw (opens_bad b blocks e bad) (inr refl)
        | inr (input, good) ↦
            let used' = used ++ b.index ∷ [] in
            let live' = live ++ b.index ∷ [] in
            let rest =
              opens blocks all used' live' reason tokens a.1
                (append_assoc live (b.index ∷ []) (indices blocks) ∙ e) in
            rw (opens_good b blocks input good) (
              a.0,
              subst (Conforms used' live')
                  (sym (
                    append_assoc (input_frames b) (open_tools json_parse blocks).0
                      (end_frames (open_tools json_parse blocks).1 all reason tokens)))
                  (with_input b used' live' _ (contains-append live b.index) rest),
            )
      ]

abbrev live_of : Option ℕ → List ℕ
live_of none = []
live_of (some index) = index ∷ []

stopped :
    (text_index : Option ℕ) (used : List ℕ) (frames : List Frame)
    → Conforms used [] frames
    → Conforms used (live_of text_index) (stop_text text_index ++ frames)
stopped none used frames h = h
stopped (some index) used frames h = (ground (arith, ==_refl index), rw (==_refl index) h)

on_delta-text_index :
    (found : Option PendingCall) (key : ℕ) (id : String) (name delta : Option String) (w : Writer)
    → (on_delta found key id name delta w).text_index ≡ none
unfolding on_delta
on_delta-text_index none key id name delta w = refl
on_delta-text_index (some block) key id name delta w = refl

on_text-Conforms :
    (used : List ℕ) (text_index : Option ℕ) (s : String) (w : Writer)
    (next : Writer → List Frame × Bool)
    → text_index ≡ w.text_index
    → IsWriter used w
    → ((used' : List ℕ) (w' : Writer)
        → IsWriter used' w'
        → Conforms used' (live_of w'.text_index) (next w').0)
    → Conforms used (live_of text_index) (follow (on_text text_index s w) next).0
unfolding on_text
on_text-Conforms used none s w next e h k = (
  below_is_new used w.next_index w.next_index h.below (omega arith),
  (
    ground (arith, ==_refl w.next_index),
    k (used ++ w.next_index ∷ []) _ (on_text-IsWriter used w h),
  ),
)
on_text-Conforms used (some index) s w next e h k = (
  ground (arith, ==_refl index),
  subst (λ o. Conforms used (live_of o) (next w).0) (sym e) (k used w h),
)

on_completed-Conforms :
    (json_parse : String → Option Json) (used : List ℕ) (reason : FinishReason) (w : Writer)
    → IsWriter used w
    → Conforms used (live_of w.text_index) (on_completed json_parse reason w)
unfolding on_completed
on_completed-Conforms json_parse used reason w h =
    let blocks = values w.tool_blocks in
    rw (sort_rising blocks 0 h.rising.0) (
      stopped w.text_index used _ (
        opens json_parse blocks blocks used [] _ w.output_tokens
          (apart-AreFresh used (indices blocks) 0 h.rising.0 h.apart) refl))

module _ (json_parse : String → Option Json) {F : Type 0} where
  follow-Conforms :
      (used : List ℕ) (event : RouterEvent F) (w : Writer) (next : Writer → List Frame × Bool)
      → IsWriter used w
      → ((used' : List ℕ) (w' : Writer)
          → IsWriter used' w'
          → Conforms used' (live_of w'.text_index) (next w').0)
      → Conforms used (live_of w.text_index) (follow (react json_parse event w) next).0
  unfolding react
  follow-Conforms used (text_delta s) w next h k =
      on_text-Conforms used w.text_index s w next refl h k
  follow-Conforms used (tool_call_delta key id name delta) w next h k =
      let found = get w.tool_blocks key in
      let w' = on_delta found key id name delta w in
      stopped w.text_index used _ (
        subst (λ o. Conforms used (live_of o) (next w').0)
          (on_delta-text_index found key id name delta w)
          (k used w' (on_delta-IsWriter used w key id name delta h)))
  follow-Conforms used (usage u) w next h k =
      k used _ (record { rising = h.rising; below = h.below; apart = h.apart })
  follow-Conforms used (completed reason) w next h k =
      on_completed-Conforms json_parse used reason w h
  follow-Conforms used (error e) w next h k = inl refl

  stream_frames-Conforms :
      (used : List ℕ) (w : Writer) (arrivals : List (Arrival F)) (ending : PullEnd)
      → IsWriter used w
      → Conforms used (live_of w.text_index) (stream_frames json_parse w arrivals ending).0
  unfolding stream_frames
  stream_frames-Conforms used w [] exhausted h = tt
  stream_frames-Conforms used w [] (raised e true) h = tt
  stream_frames-Conforms used w [] (raised e false) h = inl refl
  stream_frames-Conforms used w (a ∷ arrivals) ending h = elim (Bool-cases a.destroyed) [
    | inl gone ↦ rw gone tt
    | inr here ↦ rw here (
        follow-Conforms used a.event w (λ w'. stream_frames json_parse w' arrivals ending) h
          (λ used' w' h'. stream_frames-Conforms used' w' arrivals ending h'))
  ]

  -- The frames of every streamed message keep to the protocol: the index of a content block is taken
  -- once, a block is written to and closed only while it is open, `message_delta` comes with no block
  -- open and right before the end of the message, and after an error only that end can come, which
  -- then closes no block.
  pub stream_message-Conforms :
      (arrivals : List (Arrival F)) (ending : PullEnd)
      → (frames : List Frame) × (stream_message json_parse false arrivals ending
          ≡ message_start ∷ frames)
        × Conforms [] [] frames
  unfolding stream_message
  stream_message-Conforms arrivals ending = (
    _,
    refl,
    stream_frames-Conforms [] fresh arrivals ending
        (record { rising = (tt, tt); below = tt; apart = tt }),
  )
