-- ===== src/Http/Responses/Stream/Protocol.antt =====
-- src/http/openai-responses.ts: the frames of a response open and close its output items.
use Prim.Native.String
use Prim.Native.String.{String}
use mathlib.Core.List.{append_assoc, append-nil}
use cmm_routers.Prelude.{
  ℕ, Bool, true, false, Option, none, some, List, [], ◌∷◌, ◌++◌, string_eq, nat_eq, ◌==◌,
  if◌then◌else◌, contains, ◌≡◌, refl, arith, Bool-cases, inl, inr, ==_refl, sym, subst, ◌∙◌,
}
use cmm_routers.Prelude.OrderedMap.{get}
use cmm_routers.Core.Json.{Json}
use cmm_routers.Core.Errors.{RouterError}
use cmm_routers.Core.RouterEvent.{RouterEvent, text_delta, tool_call_delta, usage, completed, error}
use cmm_routers.Http.Chat.Aggregate.{PendingCall, values, call_of}
use cmm_routers.Http.Chat.Stream.{Arrival, PullEnd, exhausted, raised}
use cmm_routers.Http.Anthropic.Stream.Indices.{indices, sort_rising, below_suc}
use cmm_routers.Http.Anthropic.Stream.Used.{AreFresh}
use cmm_routers.Http.Responses.Plain.{OutputItem, function_call}
use cmm_routers.Http.Responses.Stream.Taken.{
  IsWriter, live_of, fresh_after, apart_is_fresh, on_delta-IsWriter, below_apart,
}
use cmm_routers.Http.Responses.Stream.{
  Frame, created, item_added, part_added, output_text_delta, output_text_done, part_done,
  arguments_delta, arguments_done, item_done, response_completed, response_failed, done, Writer,
  fresh, follow, on_text, on_delta, delta_frames, all_call_frames, text_end, end_frames,
  on_completed, react, stream_frames, stream_response,
}

abbrev without : ℕ → List ℕ → List ℕ
without index [] = []
without index (i ∷ live) = let rest = without index live in if i == index then live else i ∷ rest

-- Frames that keep to the protocol after the output indices `used` were taken, while the items `live`
-- are open: an index is taken once, an item is written to and done only while it is open, none is open
-- when the response is completed, and a completion or a failure is the last frame.
abbrev pub Conforms : (used live : List ℕ) → List Frame → Type 0
Conforms used live [] = Unit
Conforms used live (created ∷ frames) = ⊥
Conforms used live (item_added index item ∷ frames) =
    (contains used index ≡ false) × Conforms (used ++ index ∷ []) (live ++ index ∷ []) frames
Conforms used live (part_added index ∷ frames) =
    (contains live index ≡ true) × Conforms used live frames
Conforms used live (output_text_delta index s ∷ frames) =
    (contains live index ≡ true) × Conforms used live frames
Conforms used live (output_text_done index s ∷ frames) =
    (contains live index ≡ true) × Conforms used live frames
Conforms used live (part_done index s ∷ frames) =
    (contains live index ≡ true) × Conforms used live frames
Conforms used live (arguments_delta index delta name ∷ frames) =
    (contains live index ≡ true) × Conforms used live frames
Conforms used live (arguments_done index arguments name ∷ frames) =
    (contains live index ≡ true) × Conforms used live frames
Conforms used live (item_done index item ∷ frames) =
    (contains live index ≡ true) × Conforms used (without index live) frames
Conforms used live (response_completed output ∷ frames) = (live ≡ []) × (frames ≡ [])
Conforms used live (response_failed e ∷ frames) = frames ≡ []
Conforms used live (done ∷ frames) = ⊥

with_delta :
    (c : PendingCall) (used : List ℕ) (frames : List Frame)
    → Conforms used (c.index ∷ []) frames
    → Conforms used (c.index ∷ []) (delta_frames c ++ frames)
with_delta c used frames h = elim (Bool-cases (c.arguments == "")) [
  | inl empty ↦ rw empty h
  | inr full ↦ rw full (ground (arith, ==_refl c.index), h)
]

contains_one : (index : ℕ) → contains (index ∷ []) index ≡ true
contains_one index = ground (arith, ==_refl index)

calls-Conforms :
    (calls : List PendingCall) (used : List ℕ) (output : List OutputItem)
    → AreFresh used (indices calls)
    → Conforms used [] (all_call_frames calls ++ response_completed output ∷ [])
unfolding all_call_frames
calls-Conforms [] used output h = (refl, refl)
calls-Conforms (c ∷ calls) used output h =
    let tail =
      arguments_done c.index c.arguments c.name
      ∷ item_done c.index (function_call (call_of c))
      ∷ [] in
    let rest = all_call_frames calls in
    let end = response_completed output ∷ [] in
    (
      h.0,
      subst (Conforms (used ++ c.index ∷ []) (c.index ∷ []))
          (sym (
            append_assoc (delta_frames c ++ tail) rest end
            ∙ append_assoc (delta_frames c) tail (rest ++ end)))
          (with_delta c (used ++ c.index ∷ []) (tail ++ (rest ++ end)) (
            contains_one c.index,
            (
              contains_one c.index,
              rw (==_refl c.index) (calls-Conforms calls (used ++ c.index ∷ []) output h.1),
            ),
          )),
    )

ended :
    (text_index : Option ℕ) (s : String) (used : List ℕ) (frames : List Frame)
    → Conforms used [] frames
    → Conforms used (live_of text_index) (text_end text_index s ++ frames)
ended none s used frames h = h
ended (some t) s used frames h =
    (contains_one t, (contains_one t, (contains_one t, rw (==_refl t) h)))

end-Conforms :
    (verdict : Option RouterError) (calls : List PendingCall) (used : List ℕ)
    (output : List OutputItem)
    → AreFresh used (indices calls)
    → Conforms used [] (end_frames verdict calls output)
end-Conforms (some e) calls used output h = refl
end-Conforms none calls used output h = calls-Conforms calls used output h

completed-Conforms :
    (json_parse : String → Option Json) (w : Writer)
    → IsWriter w
    → Conforms (live_of w.text_index) (live_of w.text_index) (on_completed json_parse w)
unfolding on_completed
completed-Conforms json_parse w h =
    let calls = values w.calls in
    let free = apart_is_fresh w.next_index w.text_index (indices calls) h.apart in
    rw (sort_rising calls 0 h.rising.0) (
      ended w.text_index w.text_buffer (live_of w.text_index) _ (
        end-Conforms _ calls (live_of w.text_index) _ (
          subst (λ used. AreFresh used (indices calls)) (append-nil (live_of w.text_index))
            (fresh_after w.text_index [] (indices calls) 0 tt h.rising.0 free))))

on_text-Conforms :
    (text_index : Option ℕ) (s : String) (w : Writer) (next : Writer → List Frame × Bool)
    → text_index ≡ w.text_index
    → IsWriter w
    → ((w' : Writer)
        → IsWriter w'
        → Conforms (live_of w'.text_index) (live_of w'.text_index) (next w').0)
    → Conforms (live_of text_index) (live_of text_index) (follow (on_text text_index s w) next).0
unfolding on_text
on_text-Conforms none s w next e h k = (
  refl,
  (
    contains_one w.next_index,
    (
      contains_one w.next_index,
      k _ (record {
        rising = (h.rising.0, below_suc (indices (values w.calls)) w.next_index h.rising.1);
        apart = (omega arith, below_apart (indices (values w.calls)) w.next_index h.rising.1);
      }),
    ),
  ),
)
on_text-Conforms (some t) s w next e h k = (
  contains_one t,
  subst
      (λ o.
        Conforms (live_of o) (live_of o)
          (next (record w { text_buffer = String.◌++◌ w.text_buffer s })).0)
      (sym e) (k _ (record { rising = h.rising; apart = h.apart })),
)

on_delta-text_index :
    (found : Option PendingCall) (key : ℕ) (id : String) (name delta : Option String) (w : Writer)
    → (on_delta found key id name delta w).text_index ≡ w.text_index
unfolding on_delta
on_delta-text_index none key id name delta w = refl
on_delta-text_index (some block) key id name delta w = refl

module _ (json_parse : String → Option Json) {F : Type 0} where
  follow-Conforms :
      (event : RouterEvent F) (w : Writer) (next : Writer → List Frame × Bool)
      → IsWriter w
      → ((w' : Writer)
          → IsWriter w'
          → Conforms (live_of w'.text_index) (live_of w'.text_index) (next w').0)
      → Conforms
          (live_of w.text_index)
          (live_of w.text_index)
          (follow (react json_parse event w) next).0
  unfolding react
  follow-Conforms (text_delta s) w next h k = on_text-Conforms w.text_index s w next refl h k
  follow-Conforms (tool_call_delta key id name delta) w next h k =
      let found = get w.calls key in
      let w' = on_delta found key id name delta w in
      subst (λ o. Conforms (live_of o) (live_of o) (next w').0)
        (on_delta-text_index found key id name delta w)
        (k w' (on_delta-IsWriter w key id name delta h))
  follow-Conforms (usage u) w next h k = k w h
  follow-Conforms (completed reason) w next h k = completed-Conforms json_parse w h
  follow-Conforms (error e) w next h k = refl

  stream_frames-Conforms :
      (w : Writer) (arrivals : List (Arrival F)) (ending : PullEnd)
      → IsWriter w
      → Conforms
          (live_of w.text_index)
          (live_of w.text_index)
          (stream_frames json_parse w arrivals ending).0
  unfolding stream_frames
  stream_frames-Conforms w [] exhausted h = tt
  stream_frames-Conforms w [] (raised e true) h = tt
  stream_frames-Conforms w [] (raised e false) h = refl
  stream_frames-Conforms w (a ∷ arrivals) ending h = elim (Bool-cases a.destroyed) [
    | inl gone ↦ rw gone tt
    | inr here ↦ rw here (
        follow-Conforms a.event w (λ w'. stream_frames json_parse w' arrivals ending) h
          (λ w' h'. stream_frames-Conforms w' arrivals ending h'))
  ]

  -- The frames of every streamed response keep to the protocol: an output index is used for one item,
  -- an item is written to and done only while it is open, none is open when the response is
  -- completed, and only the end mark comes after a completion or a failure.
  pub stream_response-Conforms :
      (arrivals : List (Arrival F)) (ending : PullEnd) (gone : Bool)
      → (frames : List Frame) × (stream_response json_parse false gone arrivals ending
          ≡ created ∷ (frames ++ (if gone then [] else done ∷ [])))
        × Conforms [] [] frames
  unfolding stream_response
  stream_response-Conforms arrivals ending gone = (
    _,
    refl,
    stream_frames-Conforms fresh arrivals ending (record { rising = (tt, tt); apart = tt }),
  )
