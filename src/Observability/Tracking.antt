-- ===== src/Observability/Tracking.antt =====
-- src/http/usage-tracking.ts. The run of the generator is a function of what it pulls: each event
-- with whether the signal is aborted and what the clock reads when it arrives, and then how the
-- pulling ends, which includes a consumer that leaves at a `yield`.
pub mod Once
use cmm_routers.Prelude.{
  ℕ, String, Bool, true, false, Option, none, some, List, [], ◌∷◌, ◌++◌, string_eq, ◌==◌,
  if◌then◌else◌,
}
use cmm_routers.Core.RouterEvent.{
  RouterEvent, text_delta, tool_call_delta, usage, completed, error, TokenUsage, FinishReason,
  Thrown, thrown_code,
}
use cmm_routers.Observability.UsageStore.{
  UsageStatus, UsageStore, UsageIdentity, Outcome, success, provider_error, auth_error, quota_error,
  rate_limit_error, timeout_error, cancelled, begin_request, end_request,
}

unfoldable pub usage_status_for_router_error_code : String → UsageStatus
usage_status_for_router_error_code code =
    if code == "provider_quota_exhausted"
    then quota_error
    else if code == "provider_rate_limited"
    then rate_limit_error
    else if code == "provider_timeout"
    then timeout_error
    else if code == "provider_auth_required"
    then auth_error
    else provider_error

-- errorCode ? { errorCode } : {}
abbrev pub non_empty_code : Option String → Option String
non_empty_code none = none
non_empty_code (some code) = if code == "" then none else some code

unfoldable pub usage_status_for_terminal_error : Thrown → UsageStatus
unfolding usage_status_for_router_error_code
usage_status_for_terminal_error e = elim (non_empty_code (thrown_code e)) [
  | none ↦ provider_error
  | some code ↦ usage_status_for_router_error_code code
]

abbrev pub is_timeout : Option String → Bool
is_timeout none = false
is_timeout (some code) = code == "provider_timeout"

pub record TrackedOutcome (F : Type 0) : Type 0 where
  pub events : List (RouterEvent F)
  pub status : UsageStatus
  pub usage : TokenUsage F
  pub error_code : Option String
  pub finish_reason : Option FinishReason
  pub error : Option Thrown

pub record Pull (F : Type 0) : Type 0 where
  pub event : RouterEvent F
  pub aborted : Bool
  pub now : ℕ

pub data Ending : Type 0 where
  finished : Ending
  thrown : Thrown → Ending
  abandoned : Ending

-- How the generator ends: it returns, throws, or is left at a `yield`.
pub data Completion (F : Type 0) : Type 0 where
  returned : TrackedOutcome F → Completion F
  raised : Thrown → Completion F
  left : Completion F

-- the variables of the generator
pub record Tracker (F : Type 0) : Type 0 where
  pub collected : List (RouterEvent F)
  pub usage : TokenUsage F
  pub ended : Bool
  pub store : UsageStore F

abbrev pub or_old {ℓ} : {A : Type ℓ} → Option A → Option A → Option A
or_old (some a) old = some a
or_old none old = old

abbrev pub no_usage : {F : Type 0} → TokenUsage F
no_usage = record {
  input_tokens = none;
  output_tokens = none;
  reasoning_tokens = none;
  cache_read_tokens = none;
  cost_usd = none;
}

module _ {F : Type 0} where
  unfoldable pub capture_usage : RouterEvent F → TokenUsage F → TokenUsage F
  capture_usage (usage u) old = record {
    input_tokens = or_old u.input_tokens old.input_tokens;
    output_tokens = or_old u.output_tokens old.output_tokens;
    reasoning_tokens = or_old u.reasoning_tokens old.reasoning_tokens;
    cache_read_tokens = or_old u.cache_read_tokens old.cache_read_tokens;
    cost_usd = or_old u.cost_usd old.cost_usd;
  }
  capture_usage _ old = old

  -- The outcome that an event ends the stream with, if it does.
  unfoldable pub verdict :
      Bool → RouterEvent F → List (RouterEvent F) → TokenUsage F → Option (TrackedOutcome F)
  unfolding usage_status_for_terminal_error
  verdict true event events u = some (record {
    events = events;
    status = cancelled;
    usage = u;
    error_code = none;
    finish_reason = none;
    error = none;
  })
  verdict false (completed reason) events u = some (record {
    events = events;
    status = success;
    usage = u;
    error_code = none;
    finish_reason = some reason;
    error = none;
  })
  verdict false (error e) events u = some (record {
    events = events;
    status = usage_status_for_terminal_error e;
    usage = u;
    error_code = non_empty_code (thrown_code e);
    finish_reason = none;
    error = some e;
  })
  verdict false _ events u = none

  abbrev pub unfinished : List (RouterEvent F) → TokenUsage F → TrackedOutcome F
  unfinished events u = record {
    events = events;
    status = provider_error;
    usage = u;
    error_code = none;
    finish_reason = none;
    error = none;
  }

  -- the part of an outcome that the store is given
  abbrev pub stored : TrackedOutcome F → Outcome F
  stored o = record { status = o.status; usage = o.usage; error_code = o.error_code }

  unfoldable pub failure : Thrown → TokenUsage F → Outcome F
  failure e u = record {
    status = if is_timeout (thrown_code e) then timeout_error else provider_error;
    usage = u;
    error_code = non_empty_code (thrown_code e);
  }

  -- The usage after an event: an aborted signal is tested before the event is looked at.
  abbrev pub usage_after : Bool → RouterEvent F → TokenUsage F → TokenUsage F
  usage_after true event u = u
  usage_after false event u = capture_usage event u

  -- `trackProviderStream` without a store: the events yielded, and how it ends.
  unfoldable pub track_without_store :
      List (RouterEvent F)
      → TokenUsage F
      → List (Pull F)
      → Ending
      → List (RouterEvent F) × Completion F
  unfolding verdict capture_usage
  track_without_store events u [] finished = ([], returned (unfinished events u))
  track_without_store events u [] (thrown e) = ([], raised e)
  track_without_store events u [] abandoned = ([], left)
  track_without_store events u (p ∷ ps) ending =
      let u' = usage_after p.aborted p.event u in
      let events' = events ++ p.event ∷ [] in
      let (rest, completion) = track_without_store events' u' ps ending in
      elim (verdict p.aborted p.event events' u') [
        | some o ↦ (p.event ∷ [], returned o)
        | none ↦ (p.event ∷ rest, completion)
      ]

  unfoldable pub end_once : String → Outcome F → ℕ → Tracker F → Tracker F
  end_once request_id outcome now t =
      if t.ended
      then t
      else record t { ended = true; store = (end_request request_id outcome now t.store).0 }

  -- The generator with a store, after `beginRequest`.
  unfoldable pub track_with_store :
      String
      → Tracker F
      → List (Pull F)
      → Ending
      → ℕ
      → List (RouterEvent F) × Tracker F × Completion F
  unfolding verdict capture_usage end_once failure
  track_with_store id t [] finished now =
      let o = unfinished t.collected t.usage in ([], end_once id (stored o) now t, returned o)
  track_with_store id t [] (thrown e) now = ([], end_once id (failure e t.usage) now t, raised e)
  track_with_store id t [] abandoned now = ([], t, left)
  track_with_store id t (p ∷ ps) ending now =
      let t' = record t {
        collected = t.collected ++ p.event ∷ [];
        usage = usage_after p.aborted p.event t.usage;
      } in
      let (rest, t'', completion) = track_with_store id t' ps ending now in
      elim (verdict p.aborted p.event t'.collected t'.usage) [
        | some o ↦ (p.event ∷ [], end_once id (stored o) p.now t', returned o)
        | none ↦ (p.event ∷ rest, t'', completion)
      ]

  -- `trackProviderStream` with a store that is in the state `s` when it is called.
  unfoldable pub track_provider_stream :
      String
      → (provider model_id : String) → Option UsageIdentity
      → (began now : ℕ) → UsageStore F
      → List (Pull F)
      → Ending
      → List (RouterEvent F) × UsageStore F × Completion F
  unfolding track_with_store begin_request
  track_provider_stream id provider model_id identity began now s ps ending =
      let (yielded, t, completion) =
        track_with_store id
          (record {
            collected = [];
            usage = no_usage;
            ended = false;
            store = begin_request id provider model_id identity began s;
          })
          ps ending now in
      (yielded, t.store, completion)
