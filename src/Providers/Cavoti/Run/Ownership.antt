-- ===== src/Providers/Cavoti/Run/Ownership.antt =====
-- src/providers/cavoti/adapter.ts: what the events of a run are, whatever the upstream sends.
use Prim.Native.String.{String}
use cmm_routers.Prelude.{
  ℕ, Bool, true, false, ◌||◌, Option, none, some, List, [], ◌∷◌, ◌++◌, map, string_eq, nat_eq, ◌≡◌,
  refl, arith, get_or_else, Bool-cases, Option-cases, inl, inr, sym, subst,
}
use cmm_routers.Prelude.OrderedMap.{OrderedMap}
use cmm_routers.Core.Json.{Json, Fields, prop, prop?, as_filled, as_array, as_object}
use cmm_routers.Core.Errors.{Result-cases}
use cmm_routers.Core.Model.{RouterRequest}
use cmm_routers.Core.RouterEvent.{
  RouterEvent, text_delta, tool_call_delta, usage, completed, error, FinishReason, TokenUsage,
}
use cmm_routers.Http.Chat.Stream.Buffer.{HasName}
use cmm_routers.Providers.Cavoti.Fragments.{Known, read_fragment}
use cmm_routers.Providers.Cavoti.Run.{
  Pulled, Failure, routed, abort_error, unreachable, StreamEnd, exhausted, raised, read_fragments,
  at_end, usage_events, usage_if, has_number, usage_of, text_events, choice_of, terminal_of,
  has_error, read_record, read_records, run, is_pinned,
}
use cmm_routers.Providers.Cavoti.Run.Accepted.{
  IsDeclared, IsNamed, Keeps, no_calls-IsNamed, put-IsNamed, put-Keeps, known_id, known_id-Keeps,
  read_fragment-IsAccepted,
}

-- Events of which the last is `completed` or an error, the only one, unless the run was cut; a call
-- goes by the id of its index, and by no name or one that is declared and not empty.
abbrev pub IsRun : {F : Type 0} → Bool → List String → (ℕ → String) → List (RouterEvent F) → Type 0
IsRun cut declared id_of [] = cut ≡ true
IsRun cut declared id_of (text_delta text ∷ events) = IsRun cut declared id_of events
IsRun cut declared id_of (usage u ∷ events) = IsRun cut declared id_of events
IsRun cut declared id_of (tool_call_delta index id name delta ∷ events) =
    ((id_of index ≡ id) × HasName name × IsDeclared declared name) × IsRun cut declared id_of events
IsRun cut declared id_of (completed reason ∷ events) = events ≡ []
IsRun cut declared id_of (error e ∷ events) = events ≡ []

-- whether the run was aborted at some point
abbrev pub is_cut : List Pulled → StreamEnd → Bool
is_cut [] (exhausted aborted) = aborted
is_cut [] (raised abort_error aborted) = true
is_cut [] (raised (routed e) aborted) = aborted
is_cut [] (raised (unreachable message) aborted) = aborted
is_cut (p ∷ pulled) ending = p.aborted || is_cut pulled ending

module _ {F : Type 0} (declared : List String) where
  module _ (cut : Bool) where
    -- events that some naming of the indices by ids fits, which has what is known so far
    abbrev Owned : OrderedMap ℕ Known → List (RouterEvent F) → Type 0
    Owned calls events = (id_of : ℕ → String) × Keeps calls id_of × IsRun cut declared id_of events

    read_fragments-Owned :
        (raws : List Json) (calls : OrderedMap ℕ Known)
        (go_on : OrderedMap ℕ Known → List (RouterEvent F))
        → IsNamed calls
        → ((calls' : OrderedMap ℕ Known) → IsNamed calls' → Owned calls' (go_on calls'))
        → Owned calls (read_fragments declared raws calls go_on)
    unfolding read_fragments
    read_fragments-Owned [] calls go_on n rest = rest calls n
    read_fragments-Owned (raw ∷ raws) calls go_on n rest =
        elim (Result-cases (read_fragment {F = F} declared raw calls)) [
          | inl (e, bad) ↦ rw (bad, read_fragments) (known_id calls, known_id-Keeps calls, refl)
          | inr ((event, calls'), good) ↦
              let a = read_fragment-IsAccepted declared raw calls calls' event n good in
              let n' : IsNamed calls' =
                subst IsNamed (sym a.kept) (put-IsNamed calls a.index a.known n a.has_name) in
              let (id_of, keeps, run) = read_fragments-Owned raws calls' go_on n' rest in
              let (keeps', here) =
                put-Keeps calls a.index a.known id_of a.same_id
                  (subst (λ c. Keeps c id_of) a.kept keeps) in
              rw (good, read_fragments)
                (
                  id_of,
                  keeps',
                  subst
                      (λ (v : RouterEvent F).
                        IsRun cut declared id_of (v ∷ read_fragments declared raws calls' go_on))
                      (sym a.says) ((here, a.has_name, a.is_declared), run),
                )
        ]

    usage_if-Owned :
        (b : Bool) (t : TokenUsage F) (calls : OrderedMap ℕ Known) (events : List (RouterEvent F))
        → Owned calls events
        → Owned calls (usage_if b t ++ events)
    usage_if-Owned true t calls events o = o
    usage_if-Owned false t calls events o = o

    text_events-Owned :
        (o : Option String) (calls : OrderedMap ℕ Known) (events : List (RouterEvent F))
        → Owned calls events
        → Owned calls (text_events o ++ events)
    text_events-Owned none calls events o = o
    text_events-Owned (some s) calls events o = o

    usage_events-Owned :
        (count : Json → Option ℕ) (amount : Json → Option F) (u : Option Json) (record_ : Fields)
        (calls : OrderedMap ℕ Known) (events : List (RouterEvent F))
        → Owned calls events
        → Owned calls (usage_events count amount u record_ ++ events)
    unfolding usage_events
    usage_events-Owned count amount none record_ calls events o = o
    usage_events-Owned count amount (some u) record_ calls events o =
        usage_if-Owned (has_number _) (usage_of count amount u record_) calls events o

    read_record-Owned :
        (count : Json → Option ℕ) (amount : Json → Option F) (record_ : Fields)
        (calls : OrderedMap ℕ Known) (go_on : OrderedMap ℕ Known → List (RouterEvent F))
        → IsNamed calls
        → ((calls' : OrderedMap ℕ Known) → IsNamed calls' → Owned calls' (go_on calls'))
        → Owned calls (read_record count amount declared record_ calls go_on)
    unfolding read_record
    read_record-Owned count amount record_ calls go_on n rest =
        elim (Bool-cases (has_error record_)) [
          | inl bad ↦ rw (bad, read_record) (known_id calls, known_id-Keeps calls, refl)
          | inr fine ↦
              let delta = prop? (choice_of record_) "delta" in
              let raws = get_or_else (as_array (prop? delta "tool_calls")) [] in
              let after = λ (calls' : OrderedMap ℕ Known).
                usage_events count amount (as_object (prop record_ "usage")) record_
                ++ go_on calls' in
              rw (fine, read_record)
                (text_events-Owned (as_filled (prop? delta "content")) calls
                  (read_fragments declared raws calls after)
                  (read_fragments-Owned raws calls after n (λ calls' n'.
                    usage_events-Owned count amount (as_object (prop record_ "usage")) record_
                      calls' (go_on calls') (rest calls' n'))))
        ]

at_end-Owned :
    (F : Type 0) (declared : List String) (cut : Bool) (ending : StreamEnd)
    (terminal : Option FinishReason) (calls : OrderedMap ℕ Known)
    → is_cut [] ending ≡ cut
    → Owned {F = F} declared cut calls (at_end {F = F} ending terminal)
unfolding at_end
at_end-Owned F declared cut (exhausted true) terminal calls h =
    (known_id calls, known_id-Keeps calls, sym h)
at_end-Owned F declared cut (exhausted false) none calls h =
    (known_id calls, known_id-Keeps calls, refl)
at_end-Owned F declared cut (exhausted false) (some reason) calls h =
    (known_id calls, known_id-Keeps calls, refl)
at_end-Owned F declared cut (raised (routed e) true) terminal calls h =
    (known_id calls, known_id-Keeps calls, sym h)
at_end-Owned F declared cut (raised abort_error true) terminal calls h =
    (known_id calls, known_id-Keeps calls, sym h)
at_end-Owned F declared cut (raised (unreachable m) true) terminal calls h =
    (known_id calls, known_id-Keeps calls, sym h)
at_end-Owned F declared cut (raised (routed e) false) terminal calls h =
    (known_id calls, known_id-Keeps calls, refl)
at_end-Owned F declared cut (raised abort_error false) terminal calls h =
    (known_id calls, known_id-Keeps calls, sym h)
at_end-Owned F declared cut (raised (unreachable m) false) terminal calls h =
    (known_id calls, known_id-Keeps calls, refl)

module _ {F : Type 0} (count : Json → Option ℕ) (amount : Json → Option F)
    (declared : List String) where
  read_records-Owned :
      (cut : Bool) (calls : OrderedMap ℕ Known) (terminal : Option FinishReason)
      (pulled : List Pulled) (ending : StreamEnd)
      → is_cut pulled ending ≡ cut
      → IsNamed calls
      → Owned declared cut calls (read_records count amount declared calls terminal pulled ending)
  unfolding read_records
  read_records-Owned cut calls terminal [] ending h n =
      at_end-Owned F declared cut ending terminal calls h
  read_records-Owned cut calls terminal (p ∷ pulled) ending h n = elim (Bool-cases p.aborted) [
    | inl gone ↦
        rw (gone, read_records) (known_id calls, known_id-Keeps calls, ground (arith, gone, h))
    | inr here ↦
        let terminal' =
          terminal_of (as_filled (prop? (choice_of p.fields) "finish_reason")) terminal in
        rw (here, read_records)
          (read_record-Owned declared cut count amount p.fields calls
            (λ calls'. read_records count amount declared calls' terminal' pulled ending) n
            (λ calls' n'.
              read_records-Owned cut calls' terminal' pulled ending (ground (arith, here, h)) n'))
  ]

module _ {F : Type 0} (count : Json → Option ℕ) (amount : Json → Option F) where
  -- Whatever the upstream sends, a run ends with `completed` or an error, and nothing after it, unless
  -- it was aborted; every call in it goes by one id at its index, and by no name or one of a tool that
  -- the request declares.
  pub run-IsRun :
      (request : RouterRequest) (enabled : Option Failure) (pulled : List Pulled)
      (ending : StreamEnd)
      → (id_of : ℕ → String) × IsRun
          (is_cut pulled ending)
          (map (λ tool. tool.name) request.tools)
          id_of
          (run count amount request enabled pulled ending)
  unfolding run
  run-IsRun request enabled pulled ending = elim (Bool-cases (is_pinned request.model)) [
    | inr elsewhere ↦ rw (elsewhere, run) (λ index. "", refl)
    | inl pinned ↦ elim (Option-cases enabled) [
      | inr (failure, denied) ↦ rw (pinned, denied, run) (λ index. "", refl)
      | inl allowed ↦
          let (id_of, keeps, is_run) =
            read_records-Owned count amount (map (λ tool. tool.name) request.tools)
              (is_cut pulled ending) [] none pulled ending refl no_calls-IsNamed in
          rw (pinned, allowed, run) (id_of, is_run)
    ]
  ]
