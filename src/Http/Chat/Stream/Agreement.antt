-- ===== src/Http/Chat/Stream/Agreement.antt =====
-- src/http/openai-chat.ts: a streamed reply and one that is not say the same.
use Prim.Native.String
use Prim.Native.String.{String}
use mathlib.Core.List.{append-nil as list_append-nil, append_assoc}
use cmm_routers.Prelude.{
  ℕ, false, Option, none, some, List, [], ◌∷◌, ◌++◌, string_eq, nat_eq, get_or_else, map, ◌≡◌, refl,
  All, sym, ap,
}
use cmm_routers.Prelude.OrderedMap.{get}
use cmm_routers.Core.Json.{Json}
use cmm_routers.Core.Errors.{RouterError}
use cmm_routers.Core.Model.{RouterToolCall}
use cmm_routers.Core.RouterEvent.{
  RouterEvent, text_delta, tool_call_delta, usage, completed, error, FinishReason,
}
use cmm_routers.Http.Reply.{HttpError}
use cmm_routers.Http.Chat.Aggregate.{
  PendingCall, Aggregation, AggregatedCompletion, existing_call, extended_call, sort_calls, values,
  call_of, collect, aggregate_from, aggregate_events, initial, completion_of,
}
use cmm_routers.Http.Chat.Plain.{
  PlainReply, refused, completion, or_completion, conclude, plain_reply,
}
use cmm_routers.Http.Chat.Stream.{
  Chunk, content, call, finish, failure, Arrival, PullEnd, chunk_of, finish_calls, react,
  stream_chunks,
}
use cmm_routers.Http.Chat.Stream.Buffer.{
  HasName, rekey, values-rekey, IsKeyed, put-IsKeyed, existing-IsKeyed, buffer_delta-rekey,
}
use cmm_routers.Http.Chat.Stream.Grammar.{get_or_else-unless_empty}

-- What a client has of a reply in the end.
pub data Assembled : Type 0 where
  incomplete : Assembled
  failed : HttpError → Assembled
  message : (content : String) → List RouterToolCall → FinishReason → Assembled

-- a client that puts the chunks together
abbrev pub assemble : List Chunk → String → List RouterToolCall → Assembled
assemble [] text calls = incomplete
assemble (content t ∷ chunks) text calls = assemble chunks (String.◌++◌ text t) calls
assemble (call index id name arguments ∷ chunks) text calls = assemble chunks text (
    calls
    ++ record { id = id; name = get_or_else name ""; arguments = get_or_else arguments "" } ∷ [])
assemble (finish reason ∷ chunks) text calls = message text calls reason
assemble (failure e ∷ chunks) text calls = failed e

abbrev pub received : PlainReply → Assembled
received (refused e) = failed e
received (completion c) = message c.content c.tool_calls c.finish_reason

-- An event before the last one: it does not end the stream, and a call goes by one id and one index
-- all the time, and never by the empty name.
abbrev pub IsRegular : {F : Type 0} → (String → ℕ) → (ℕ → String) → RouterEvent F → Type 0
IsRegular index_of id_of (text_delta text) = Unit
IsRegular index_of id_of (tool_call_delta index id name delta) =
    (index_of id ≡ index) × (id_of index ≡ id) × HasName name
IsRegular index_of id_of (usage u) = Unit
IsRegular index_of id_of (completed reason) = ⊥
IsRegular index_of id_of (error e) = ⊥

abbrev pub IsLast : {F : Type 0} → RouterEvent F → Type 0
IsLast (completed reason) = Unit
IsLast (error e) = Unit
IsLast _ = ⊥

-- events that arrive while the connection is open
abbrev pub live : {F : Type 0} → List (RouterEvent F) → List (Arrival F)
live [] = []
live (e ∷ events) = record { event = e; destroyed = false } ∷ live events

assemble-finish :
    (calls : List PendingCall) (reason : FinishReason) (text : String)
    (before : List RouterToolCall)
    → assemble (map chunk_of calls ++ finish reason ∷ []) text before
      ≡ message text (before ++ map call_of calls) reason
assemble-finish [] reason text before =
    ap (λ calls. message text calls reason) (sym (list_append-nil before))
assemble-finish (c ∷ calls) reason text before =
    rw
      (
        get_or_else-unless_empty c.name,
        get_or_else-unless_empty c.arguments,
        assemble-finish calls reason text (before ++ call_of c ∷ []),
        append_assoc before (call_of c ∷ []) (map call_of calls),
      )
      refl

assemble-finish_calls :
    (verdict : Option RouterError) (calls : List PendingCall) (c : AggregatedCompletion)
    → c.tool_calls ≡ map call_of calls
    → assemble (finish_calls verdict calls c.finish_reason) c.content []
      ≡ received (or_completion verdict c)
unfolding finish_calls
assemble-finish_calls (some e) calls c h = refl
assemble-finish_calls none calls c h =
    rw (assemble-finish calls c.finish_reason c.content []) (rw h refl)

arguments_of :
    (calls : List PendingCall)
    → map (λ call. call.arguments) (map call_of calls) ≡ map (λ c. c.arguments) calls
arguments_of [] = refl
arguments_of (c ∷ calls) = ap (λ rest. c.arguments ∷ rest) (arguments_of calls)

module _ (json_parse : String → Option Json) (index_of : String → ℕ) (id_of : ℕ → String) where
  module _ {F : Type 0} where
    agree_at_end :
        (last : RouterEvent F) (a : Aggregation) (ending : PullEnd)
        → IsLast last
        → assemble
            (stream_chunks json_parse (rekey a.tool_calls) (live (last ∷ [])) ending).0
            a.content
            []
          ≡ received (conclude json_parse (aggregate_from a (last ∷ [])))
    unfolding stream_chunks react aggregate_from collect completion_of conclude
    agree_at_end (completed reason) a ending h =
        rw (values-rekey a.tool_calls, ← arguments_of (sort_calls (values a.tool_calls)))
          (assemble-finish_calls _ (sort_calls (values a.tool_calls)) _ refl)
    agree_at_end (error e) a ending h = refl
    agree_at_end (text_delta text) a ending h = elim h [ ]
    agree_at_end (tool_call_delta index id name delta) a ending h = elim h [ ]
    agree_at_end (usage u) a ending h = elim h [ ]

    agree :
        (events : List (RouterEvent F)) (last : RouterEvent F) (a : Aggregation) (ending : PullEnd)
        → All (IsRegular index_of id_of) events
        → IsLast last
        → IsKeyed index_of id_of a.tool_calls
        → assemble
            (stream_chunks json_parse (rekey a.tool_calls) (live (events ++ last ∷ [])) ending).0
            a.content
            []
          ≡ received (conclude json_parse (aggregate_from a (events ++ last ∷ [])))
    unfolding stream_chunks react aggregate_from collect
    agree [] last a ending h l k = agree_at_end last a ending l
    agree (text_delta text ∷ events) last a ending h l k =
        agree events last (collect {F = F} (text_delta text) a) ending h.1 l k
    agree (usage u ∷ events) last a ending h l k =
        agree events last (collect {F = F} (usage u) a) ending h.1 l k
    agree (tool_call_delta index id name delta ∷ events) last a ending h l k =
        let (i, d, n) = h.0 in
        let kept =
          put-IsKeyed index_of id_of a.tool_calls id
            (extended_call index name delta (existing_call (get a.tool_calls id) index id name)) k
            (existing-IsKeyed index_of id_of a.tool_calls index id name k i).0 i d in
        rw (buffer_delta-rekey index_of id_of a.tool_calls index id name delta k i d n) (
          agree events last (collect {F = F} (tool_call_delta index id name delta) a) ending h.1 l
            kept)
    agree (completed reason ∷ events) last a ending h l k = elim h.0 [ ]
    agree (error e ∷ events) last a ending h l k = elim h.0 [ ]

    -- A streamed reply and one that is not say the same of a run that ends with `completed` or an
    -- error, while the client stays connected: the same text, tool calls and finish reason, or the same
    -- error. Each call must go by one id and one index all the time, and never by the empty name.
    pub assemble-stream_chunks :
        (events : List (RouterEvent F)) (last : RouterEvent F) (ending : PullEnd)
        → All (IsRegular index_of id_of) events
        → IsLast last
        → assemble (stream_chunks json_parse [] (live (events ++ last ∷ [])) ending).0 "" []
          ≡ received (plain_reply json_parse (events ++ last ∷ []) none)
    unfolding plain_reply aggregate_events initial
    assemble-stream_chunks events last ending h l = agree events last initial ending h l tt
