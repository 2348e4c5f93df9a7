-- ===== src/Providers/Cavoti/Run/Replies.antt =====
-- src/providers/cavoti/adapter.ts and src/http/openai-chat.ts together: the two kinds of reply from a
-- run of the adapter.
use Prim.Native.String.{String}
use cmm_routers.Prelude.{
  ℕ, false, Option, none, List, [], ◌∷◌, ◌++◌, map, ◌≡◌, string_eq, nat_eq, All, ap, sym, subst,
}
use cmm_routers.Core.Json.{Json}
use cmm_routers.Core.Model.{RouterRequest}
use cmm_routers.Core.RouterEvent.{RouterEvent, text_delta, tool_call_delta, usage, completed, error}
use cmm_routers.Http.Chat.Plain.{plain_reply}
use cmm_routers.Http.Chat.Stream.{PullEnd, stream_chunks}
use cmm_routers.Http.Chat.Stream.Agreement.{
  assemble, received, IsRegular, IsLast, live, assemble-stream_chunks,
}
use cmm_routers.Providers.Cavoti.Run.{Pulled, Failure, StreamEnd, run}
use cmm_routers.Providers.Cavoti.Run.Ownership.{IsRun, is_cut, run-IsRun}

-- no id goes by two indices
abbrev pub IsIndexed : {F : Type 0} → (String → ℕ) → RouterEvent F → Type 0
IsIndexed index_of (tool_call_delta index id name delta) = index_of id ≡ index
IsIndexed index_of _ = Unit

module _ {F : Type 0} (declared : List String) (index_of : String → ℕ) (id_of : ℕ → String) where
  -- the events before the last one, and the last
  record IsEnded (events : List (RouterEvent F)) : Type 0 where
    before : List (RouterEvent F)
    last : RouterEvent F
    splits : events ≡ before ++ last ∷ []
    regular : All (IsRegular index_of id_of) before
    is_last : IsLast last

  after :
      (event : RouterEvent F) (events : List (RouterEvent F))
      → IsRegular index_of id_of event
      → IsEnded events
      → IsEnded (event ∷ events)
  after event events r e = record {
    before = event ∷ e.before;
    last = e.last;
    splits = ap (λ rest. event ∷ rest) e.splits;
    regular = (r, e.regular);
    is_last = e.is_last;
  }

  alone :
      (last : RouterEvent F) (events : List (RouterEvent F))
      → IsLast last
      → events ≡ []
      → IsEnded (last ∷ events)
  alone last events l h = record {
    before = [];
    last = last;
    splits = ap (λ rest. last ∷ rest) h;
    regular = tt;
    is_last = l;
  }

  is_run-IsEnded :
      (events : List (RouterEvent F))
      → IsRun false declared id_of events
      → All (IsIndexed index_of) events
      → IsEnded events
  is_run-IsEnded [] r i = cc
  is_run-IsEnded (text_delta text ∷ events) r i = after _ events tt (is_run-IsEnded events r i.1)
  is_run-IsEnded (usage u ∷ events) r i = after _ events tt (is_run-IsEnded events r i.1)
  is_run-IsEnded (tool_call_delta index id name delta ∷ events) r i =
      after _ events (i.0, r.0.0, r.0.1) (is_run-IsEnded events r.1 i.1)
  is_run-IsEnded (completed reason ∷ events) r i = alone _ events tt r
  is_run-IsEnded (error e ∷ events) r i = alone _ events tt r

-- From a run of the Cavoti adapter that is not aborted, and in which no id is used at two indices, a
-- Chat Completions client has the same in the end with streaming and without it: the same text, tool
-- calls and finish reason, or the same error.
pub run-agrees :
    {F : Type 0} (json_parse : String → Option Json) (count : Json → Option ℕ)
    (amount : Json → Option F) (request : RouterRequest) (enabled : Option Failure)
    (pulled : List Pulled) (ending : StreamEnd) (index_of : String → ℕ) (closed : PullEnd)
    → is_cut pulled ending ≡ false
    → let events = run count amount request enabled pulled ending in
      All (IsIndexed index_of) events
      → assemble (stream_chunks json_parse [] (live events) closed).0 "" []
        ≡ received (plain_reply json_parse events none)
run-agrees json_parse count amount request enabled pulled ending index_of closed whole indexed =
    let events = run count amount request enabled pulled ending in
    let declared = map (λ tool. tool.name) request.tools in
    let (id_of, is_run) = run-IsRun count amount request enabled pulled ending in
    let e =
      is_run-IsEnded declared index_of id_of events
        (subst (λ cut. IsRun cut declared id_of events) whole is_run) indexed in
    subst
      (λ es.
        assemble (stream_chunks json_parse [] (live es) closed).0 "" []
        ≡ received (plain_reply json_parse es none))
      (sym e.splits)
      (assemble-stream_chunks json_parse index_of id_of e.before e.last closed e.regular e.is_last)
