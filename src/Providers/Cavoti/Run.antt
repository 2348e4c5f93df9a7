-- ===== src/Providers/Cavoti/Run.antt =====
-- src/providers/cavoti/adapter.ts: a run, from the request to the events. What the client yields is
-- an input, each record with whether the run is aborted when it arrives. The numbers of JavaScript
-- are parameters: a number of JSON as a count of tokens and as a cost, where it is finite.
pub mod Accepted
pub mod Ownership
pub mod Replies
use Prim.Native.String.{String}
use cmm_routers.Prelude.{
  ℕ, Bool, true, false, not, ◌||◌, Option, none, some, List, [], ◌∷◌, ◌++◌, map, string_eq, ◌==◌,
  if◌then◌else◌, is_some, get_or_else,
}
use cmm_routers.Prelude.OrderedMap.{OrderedMap}
use cmm_routers.Core.Json.{
  Json, Fields, prop, prop?, as_filled, as_array, as_number, as_object, is_nullish,
}
use cmm_routers.Core.Errors.{
  RouterError, router_error, template, provider_protocol_error, provider_unavailable, unknown_model,
  provider_auth_required, Result, ok, err,
}
use cmm_routers.Core.Model.{ProviderId, cavoti, DiscoveredModel, RouterRequest}
use cmm_routers.Core.RouterEvent.{
  RouterEvent, text_delta, usage, completed, error, Thrown, router, TokenUsage, FinishReason, stop,
  tool_calls, length,
}
use cmm_routers.Spend.Cavoti.{cavoti_pinned_model}
use cmm_routers.Providers.Cavoti.Fragments.{Known, read_fragment}

-- A record that the client yields.
pub record Pulled : Type 0 where
  pub fields : Fields
  pub aborted : Bool

-- What the client throws: an error of the Router, the abort of its fetch, or anything else.
pub data Failure : Type 0 where
  routed : RouterError → Failure
  abort_error : Failure
  unreachable : (message : String) → Failure

-- How the client's stream ends, with whether the run is aborted then.
pub data StreamEnd : Type 0 where
  exhausted : (aborted : Bool) → StreamEnd
  raised : Failure → (aborted : Bool) → StreamEnd

unfoldable pub finish_reason : String → FinishReason
finish_reason value =
    if value == "length" then length else if value == "tool_calls" then tool_calls else stop

-- `topLevelError(record)`, as whether there is one
unfoldable pub has_error : Fields → Bool
has_error record_ = not (is_nullish (prop record_ "error"))

abbrev upstream_error : RouterError
upstream_error =
    router_error provider_protocol_error "Cavoti stream returned an upstream error object"

abbrev first : Option (List Json) → Option Json
first none = none
first (some []) = none
first (some (v ∷ vs)) = some v

-- `choices[0]`
abbrev pub choice_of : Fields → Option Json
choice_of record_ = first (as_array (prop record_ "choices"))

-- `a ?? b`
abbrev or_nullish : Option Json → Option Json → Option Json
or_nullish a b = if is_nullish a then b else a

-- the last finish reason that was seen
abbrev pub terminal_of : Option String → Option FinishReason → Option FinishReason
terminal_of none terminal = terminal
terminal_of (some value) terminal = some (finish_reason value)

abbrev is_cavoti : ProviderId → Bool
is_cavoti cavoti = true
is_cavoti _ = false

-- the route is the pinned one
abbrev pub is_pinned : DiscoveredModel → Bool
is_pinned model =
    if is_cavoti model.provider then model.upstream_model == cavoti_pinned_model else false

abbrev pub denied : Failure → RouterError
denied (routed e) = e
denied _ = router_error provider_auth_required "Cavoti route is not enabled"

module _ {F : Type 0} where
  abbrev pub text_events : Option String → List (RouterEvent F)
  text_events none = []
  text_events (some text) = text_delta text ∷ []

  abbrev pub has_number : TokenUsage F → Bool
  has_number t =
      is_some t.input_tokens
      || is_some t.output_tokens
      || is_some t.cache_read_tokens
      || is_some t.reasoning_tokens
      || is_some t.cost_usd

  abbrev pub usage_if : Bool → TokenUsage F → List (RouterEvent F)
  usage_if true t = usage t ∷ []
  usage_if false t = []

  -- the loop over `tool_calls`, and then `go_on`; an error ends the run
  unfoldable pub read_fragments :
      List String
      → List Json
      → OrderedMap ℕ Known
      → (OrderedMap ℕ Known → List (RouterEvent F))
      → List (RouterEvent F)
  unfolding read_fragment
  read_fragments declared [] calls go_on = go_on calls
  read_fragments declared (raw ∷ raws) calls go_on =
      elim (read_fragment {F = F} declared raw calls) [
        | err e ↦ error (router e) ∷ []
        | ok (event, calls') ↦ event ∷ read_fragments declared raws calls' go_on
      ]

  -- after the client's stream
  unfoldable pub at_end : StreamEnd → Option FinishReason → List (RouterEvent F)
  at_end (exhausted true) terminal = []
  at_end (exhausted false) (some reason) = completed reason ∷ []
  at_end (exhausted false) none =
      error (
        router (
          router_error provider_protocol_error
            "Cavoti stream ended without a terminal finish reason"))
      ∷ []
  at_end (raised e true) terminal = []
  at_end (raised (routed e) false) terminal = error (router e) ∷ []
  at_end (raised abort_error false) terminal = []
  at_end (raised (unreachable message) false) terminal =
      error (
        router
          (router_error provider_unavailable (template ("Cavoti unreachable: " ∷ message ∷ []))))
      ∷ []

  module _ (count : Json → Option ℕ) (amount : Json → Option F) where
    -- `cavotiUsageNumber(value)`
    abbrev number {κ} : {A : Type κ} → (Json → Option A) → Option Json → Option A
    number convert value = elim (as_number value) [ none ↦ none | some n ↦ convert n ]

    unfoldable pub usage_of : Json → Fields → TokenUsage F
    usage_of u record_ =
        let prompt = prop? (some u) "prompt_tokens_details" in
        let completion = prop? (some u) "completion_tokens_details" in
        record {
          input_tokens = number count (prop? (some u) "prompt_tokens");
          output_tokens = number count (prop? (some u) "completion_tokens");
          reasoning_tokens = number count (
              or_nullish (prop? completion "reasoning_tokens") (prop? (some u) "reasoning_tokens"));
          cache_read_tokens = number count (prop? prompt "cached_tokens");
          cost_usd = number amount (or_nullish (prop? (some u) "cost") (prop record_ "cost"));
        }

    -- an event of type `usage` if any of its numbers is there
    unfoldable pub usage_events : Option Json → Fields → List (RouterEvent F)
    unfolding usage_of
    usage_events none record_ = []
    usage_events (some u) record_ = let t = usage_of u record_ in usage_if (has_number t) t

    -- one round of the loop over the records, and then `go_on`
    unfoldable pub read_record :
        List String
        → Fields
        → OrderedMap ℕ Known
        → (OrderedMap ℕ Known → List (RouterEvent F))
        → List (RouterEvent F)
    unfolding has_error read_fragments usage_events
    read_record declared record_ calls go_on = elim (has_error record_) [
      | true ↦ error (router upstream_error) ∷ []
      | false ↦
          let delta = prop? (choice_of record_) "delta" in
          text_events (as_filled (prop? delta "content"))
          ++ read_fragments declared (get_or_else (as_array (prop? delta "tool_calls")) []) calls
              (λ calls'. usage_events (as_object (prop record_ "usage")) record_ ++ go_on calls')
    ]

    -- The loop over the client's stream.
    unfoldable pub read_records :
        List String
        → OrderedMap ℕ Known
        → Option FinishReason
        → List Pulled
        → StreamEnd
        → List (RouterEvent F)
    unfolding read_record at_end
    read_records declared calls terminal [] ending = at_end ending terminal
    read_records declared calls terminal (p ∷ pulled) ending = elim p.aborted [
      | true ↦ []
      | false ↦ read_record declared p.fields calls (λ calls'.
          read_records declared calls'
            (terminal_of (as_filled (prop? (choice_of p.fields) "finish_reason")) terminal) pulled
            ending)
    ]

    -- The events of a run; `enabled` is what `requireEnabled` throws, if it does.
    unfoldable pub run :
        RouterRequest → (enabled : Option Failure) → List Pulled → StreamEnd → List (RouterEvent F)
    unfolding read_records
    run request enabled pulled ending = elim (is_pinned request.model) [
      | false ↦
          error (
            router (
              router_error unknown_model (
                template (
                  "Cavoti route is pinned to " ∷ cavoti_pinned_model
                  ∷ "; no alias or fallback is permitted" ∷ []))))
          ∷ []
      | true ↦ elim enabled [
        | some failure ↦ error (router (denied failure)) ∷ []
        | none ↦ read_records (map (λ tool. tool.name) request.tools) [] none pulled ending
      ]
    ]
