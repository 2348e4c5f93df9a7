-- ===== src/Core/Broker/Spent.antt =====
-- A public id that has been used is never open again, however long the broker runs.
use text.Mathlib.TextEquality.{eq_iff}
use cmm_routers.Prelude.{
  ◌<◌, String, ◌≡◌, ◌≢◌, Option, none, some, List, [], ◌∷◌, arith, string_eq, Option-cases, inl,
  inr, All,
}
use cmm_routers.Prelude.OrderedMap.{get, get-put, get-remove}
use cmm_routers.Prelude.OrderedMap.Distinct.{find_key}
use cmm_routers.Core.Profile.{RouterProfile}
use cmm_routers.Core.Broker.State.{
  outcome_of, TerminalState, ResolveOutcome, Broker, settle, retire, retire_public,
  remember_terminal,
}
use cmm_routers.Core.Broker.Operations.{forget_terminal, index_public, claim_by_public_tool_call_id}
use cmm_routers.Core.Broker.Events.{Event, create, await, step, run}
use cmm_routers.Core.Broker.Invariant.{WellFormed}
use cmm_routers.Core.Broker.Cases.{Keeps, step-keeps, await_cases}
use cmm_routers.Core.Broker.Claims.{claim_state}

-- a call is created under another public id, or under none
abbrev pub IsOther : String → Option String → Type 0
IsOther public_id none = Unit
IsOther public_id (some p) = p ≢ public_id

-- the event creates no call under this public id
abbrev pub LeavesFree : {C R : Type 0} → String → Event C R → Type 0
LeavesFree public_id (create key ttl signal context now) = IsOther public_id key.public_tool_call_id
LeavesFree public_id _ = Unit

outcome_of-ne-resolved : (s : Option TerminalState) → outcome_of s ≢ ResolveOutcome.resolved
outcome_of-ne-resolved none = cc
outcome_of-ne-resolved (some TerminalState.resolved) = cc
outcome_of-ne-resolved (some TerminalState.expired) = cc
outcome_of-ne-resolved (some TerminalState.cancelled) = cc

module _ {C R : Type 0} (public_id : String) where
  abbrev IsClosed : Broker C R → Type 0
  IsClosed b = get b.public_index public_id ≡ none

  retire-IsClosed :
      (id : String) (state : TerminalState) (b : Broker C R)
      → IsClosed b
      → IsClosed (retire id state b)
  unfolding retire remember_terminal retire_public
  retire-IsClosed id state b h = elim (Option-cases (find_key b.public_index id)) [
    | inl missed ↦ rw missed h
    | inr (p, found) ↦ rw found (ground (arith, get-remove b.public_index p public_id))
  ]

  opened-IsClosed :
      (p : Option String) (id : String) (b : Broker C R)
      → IsOther public_id p
      → IsClosed b
      → IsClosed (index_public p id b)
  unfolding index_public
  opened-IsClosed none id b other h = h
  opened-IsClosed (some q) id b other h =
      ground (arith, get-put b.public_index q public_id id, eq_iff q public_id)

  IsClosed-keeps : Keeps (IsOther public_id) IsClosed
  unfolding settle forget_terminal
  IsClosed-keeps = record {
    removed = λ id entry state s b found h. retire-IsClosed id state b h;
    forgot = λ id b h. h;
    opened = λ entry p id b other _ _ _ _ _ h. opened-IsClosed p id _ other h;
    listens = λ ls b h. h;
  }

  step-IsClosed :
      (b : Broker C R) (e : Event C R) → LeavesFree public_id e → IsClosed b → IsClosed (step b e)
  unfolding settle
  step-IsClosed b (await key promise) a h =
      await_cases IsClosed key promise b (λ e bad. h) (λ id fine s. h) (λ id entry fine found. h)
  step-IsClosed b (create key ttl signal context now) a h =
      step-keeps (IsOther public_id) IsClosed IsClosed-keeps b (create key ttl signal context now) a
        h
  step-IsClosed b e a h = step-keeps (IsOther public_id) IsClosed IsClosed-keeps b e tt h

  run-IsClosed :
      (b : Broker C R) (es : List (Event C R))
      → All (LeavesFree public_id) es
      → IsClosed b
      → IsClosed (run b es)
  unfolding run
  run-IsClosed b [] a h = h
  run-IsClosed b (e ∷ es) a h = run-IsClosed (step b e) es a.1 (step-IsClosed b e a.0 h)

  claim_closed :
      (expected : Option RouterProfile) (b : Broker C R)
      → IsClosed b
      → (claim_by_public_tool_call_id public_id expected b).1.outcome ≢ ResolveOutcome.resolved
  unfolding claim_by_public_tool_call_id
  claim_closed expected b h =
      rw (h, claim_by_public_tool_call_id)
        (outcome_of-ne-resolved (get b.public_terminal public_id))

  -- No call is resolved twice: once a claim of a public id has resolved, no later claim of it
  -- resolves, whatever the events in between and whoever claims, as long as no new call is created
  -- under the same public id.
  pub claim_once :
      (expected expected' : Option RouterProfile) (b : Broker C R) (es : List (Event C R))
      → WellFormed b
      → 0 < b.max_pending
      → (claim_by_public_tool_call_id public_id expected b).1.outcome ≡ ResolveOutcome.resolved
      → All (LeavesFree public_id) es
      → (claim_by_public_tool_call_id public_id expected'
          (run (claim_by_public_tool_call_id public_id expected b).0 es)).1.outcome
        ≢ ResolveOutcome.resolved
  claim_once expected expected' b es h pos resolved free =
      let b' = (claim_by_public_tool_call_id public_id expected b).0 in
      claim_closed expected' (run b' es)
        (run-IsClosed b' es free (claim_state public_id expected b h pos resolved).0)
