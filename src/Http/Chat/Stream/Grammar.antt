-- ===== src/Http/Chat/Stream/Grammar.antt =====
-- src/http/openai-chat.ts: what a client can receive on the stream, in which order.
use Prim.Native.String.{String}
use cmm_routers.Prelude.{
  ℕ, Bool, true, false, Option, none, some, List, [], ◌∷◌, ◌++◌, string_eq, ◌==◌, get_or_else,
  if◌then◌else◌, map, ◌≡◌, refl, All, Bool-cases, inl, inr, eq_of_==, sym,
}
use cmm_routers.Prelude.OrderedMap.{OrderedMap}
use cmm_routers.Core.Json.{Json}
use cmm_routers.Core.Errors.{RouterError}
use cmm_routers.Core.ToolArguments.{validate_tool_arguments, IsUsable, validate_tool_arguments_iff}
use cmm_routers.Core.RouterEvent.{
  RouterEvent, text_delta, tool_call_delta, usage, completed, error, FinishReason,
}
use cmm_routers.Http.Chat.Aggregate.{PendingCall}
use cmm_routers.Http.Chat.Stream.{
  Chunk, content, call, finish, failure, chunk, done, Arrival, PullEnd, exhausted, raised,
  unless_empty, finish_calls, follow, react, stream_chunks, stream_reply,
}

pub get_or_else-unless_empty : (s : String) → get_or_else (unless_empty s) "" ≡ s
get_or_else-unless_empty s = elim (Bool-cases (s == "")) [
  | inl empty ↦ rw empty (sym (eq_of_== s "" empty))
  | inr full ↦ rw full refl
]

module _ (json_parse : String → Option Json) where
  -- The calls with their complete arguments, and then the reason for which the reply is finished.
  abbrev pub IsEnd : List Chunk → Type 0
  IsEnd [] = ⊥
  IsEnd (content text ∷ chunks) = ⊥
  IsEnd (call index id name arguments ∷ chunks) =
      IsUsable json_parse (get_or_else arguments "") × IsEnd chunks
  IsEnd (finish reason ∷ chunks) = chunks ≡ []
  IsEnd (failure e ∷ chunks) = ⊥

  -- Text, and then nothing, an error, or the end.
  abbrev pub IsReply : List Chunk → Type 0
  IsReply [] = Unit
  IsReply (content text ∷ chunks) = IsReply chunks
  IsReply (call index id name arguments ∷ chunks) = IsEnd (call index id name arguments ∷ chunks)
  IsReply (finish reason ∷ chunks) = IsEnd (finish reason ∷ chunks)
  IsReply (failure e ∷ chunks) = chunks ≡ []

  finish_calls-IsEnd :
      (calls : List PendingCall) (reason : FinishReason)
      → All (IsUsable json_parse) (map (λ c. c.arguments) calls)
      → IsEnd (finish_calls none calls reason)
  unfolding finish_calls
  finish_calls-IsEnd [] reason h = refl
  finish_calls-IsEnd (c ∷ calls) reason h =
      (rw (get_or_else-unless_empty c.arguments) h.0, finish_calls-IsEnd calls reason h.1)

  end-IsReply : (chunks : List Chunk) → IsEnd chunks → IsReply chunks
  end-IsReply [] h = tt
  end-IsReply (content text ∷ chunks) h = elim h [ ]
  end-IsReply (call index id name arguments ∷ chunks) h = h
  end-IsReply (finish reason ∷ chunks) h = h
  end-IsReply (failure e ∷ chunks) h = elim h [ ]

  finish_calls-IsReply :
      (verdict : Option RouterError) (calls : List PendingCall) (reason : FinishReason)
      → validate_tool_arguments json_parse (map (λ c. c.arguments) calls) ≡ verdict
      → IsReply (finish_calls verdict calls reason)
  unfolding finish_calls
  finish_calls-IsReply (some e) calls reason h = refl
  finish_calls-IsReply none calls reason h =
      end-IsReply _
        (finish_calls-IsEnd calls reason ((validate_tool_arguments_iff json_parse _).0 h))

  module _ {F : Type 0} where
    follow-IsReply :
        (event : RouterEvent F) (calls : OrderedMap ℕ PendingCall)
        (next : OrderedMap ℕ PendingCall → List Chunk × Bool)
        → ((calls' : OrderedMap ℕ PendingCall) → IsReply (next calls').0)
        → IsReply (follow (react json_parse event calls) next).0
    unfolding react
    follow-IsReply (text_delta text) calls next h = h calls
    follow-IsReply (tool_call_delta index id name delta) calls next h = h _
    follow-IsReply (usage u) calls next h = h calls
    follow-IsReply (completed reason) calls next h = finish_calls-IsReply _ _ reason refl
    follow-IsReply (error e) calls next h = refl

    stream_chunks-IsReply :
        (calls : OrderedMap ℕ PendingCall) (arrivals : List (Arrival F)) (ending : PullEnd)
        → IsReply (stream_chunks json_parse calls arrivals ending).0
    unfolding stream_chunks
    stream_chunks-IsReply calls [] exhausted = tt
    stream_chunks-IsReply calls [] (raised e true) = tt
    stream_chunks-IsReply calls [] (raised e false) = refl
    stream_chunks-IsReply calls (a ∷ arrivals) ending = elim (Bool-cases a.destroyed) [
      | inl gone ↦ rw gone tt
      | inr here ↦ rw here (
          follow-IsReply a.event calls (λ calls'. (stream_chunks json_parse calls' arrivals ending))
            (λ calls'. stream_chunks-IsReply calls' arrivals ending))
    ]

    -- On the stream come texts, and then nothing more, or one error, or the tool calls and the reason
    -- for which the reply is finished; the arguments of every call are a JSON text or blank. After
    -- that comes the end mark, unless the connection is destroyed.
    pub stream_reply-IsReply :
        (arrivals : List (Arrival F)) (ending : PullEnd) (destroyed : Bool)
        → (chunks : List Chunk) × (stream_reply json_parse arrivals ending destroyed
            ≡ map chunk chunks ++ (if destroyed then [] else done ∷ []))
          × IsReply chunks
    unfolding stream_reply
    stream_reply-IsReply arrivals ending destroyed = (
      (stream_chunks json_parse [] arrivals ending).0,
      refl,
      stream_chunks-IsReply [] arrivals ending,
    )
