-- ===== src/Core/Broker/Claims.antt =====
-- Who can claim a deferred call by its public id, and how often.
use text.Mathlib.TextEquality.{eq_iff}
use cmm_routers.Prelude.{
  ◌<◌, String, ◌≡◌, ap, refl, ◌++◌, map, ◌==◌, ◌∙◌, Bool, true, false, Option, none, some, arith,
  string_eq, if◌then◌else◌, Option-cases, inl, inr,
}
use cmm_routers.Prelude.OrderedMap.{get, remove, get-remove}
use cmm_routers.Prelude.OrderedMap.Distinct.{find_key, get_of_find_key, find_key_none}
use cmm_routers.Prelude.OrderedMap.Eviction.{get-trim-put}
use cmm_routers.Core.Profile.{RouterProfile, profile_eq, profile_beq_iff}
use cmm_routers.Core.Broker.State.{
  TerminalState, ResolveOutcome, Entry, Broker, outcome_of, claimed, settle, retire_public,
  remember_terminal, retire, fail_entry, take,
}
use cmm_routers.Core.Broker.Operations.{claim_by_public_tool_call_id, owned_by}
use cmm_routers.Core.Broker.Invariant.{WellFormed}

-- The profile that a claim expects, if it expects one, is the entry's.
abbrev pub IsOwner : {C : Type 0} → Option RouterProfile → Entry C → Type 0
IsOwner none entry = Unit
IsOwner (some profile) entry = entry.profile ≡ profile

owned_by-IsOwner :
    {C : Type 0} (expected : Option RouterProfile) (entry : Entry C)
    → owned_by expected (some entry) ≡ true
    → IsOwner expected entry
owned_by-IsOwner none entry h = tt
owned_by-IsOwner (some profile) entry h = (profile_beq_iff entry.profile profile).0 h

module _ {C R : Type 0} where
  -- the entry that a claim resolves
  claimed_entry :
      (public_id : String) (expected : Option RouterProfile) (b : Broker C R)
      → (claim_by_public_tool_call_id public_id expected b).1.outcome ≡ ResolveOutcome.resolved
      → (id : String) × (entry : Entry C) × (get b.public_index public_id ≡ some id)
        × (get b.entries id ≡ some entry)
        × IsOwner expected entry
        × (claim_by_public_tool_call_id public_id expected b ≡ (
          settle entry.waiters (claimed entry.context) (retire id TerminalState.resolved b),
          record { outcome = ResolveOutcome.resolved; context = entry.context },
        ))
  unfolding claim_by_public_tool_call_id take
  claimed_entry public_id expected b h = elim (Option-cases (get b.public_index public_id)) [
    | inl absent ↦ absurd (ground (arith, absent, h))
    | inr (id, found) ↦ elim (Option-cases (get b.entries id)) [
      | inl gone ↦ absurd (ground (arith, found, gone, h))
      | inr (entry, there) ↦ (
        id,
        entry,
        found,
        there,
        owned_by-IsOwner expected entry (ground (arith, found, there, h)),
        ground (arith, found, there, h),
      )
    ]
  ]

  -- the public id of a retired key
  public_id_of :
      (public_id id : String) (b : Broker C R)
      → WellFormed b
      → get b.public_index public_id ≡ some id
      → find_key b.public_index id ≡ some public_id
  public_id_of public_id id b h found = elim (Option-cases (find_key b.public_index id)) [
    | inl missed ↦ absurd (find_key_none b.public_index id public_id missed found)
    | inr (p, e) ↦
        e
        ∙ ap some (
            h.index_injective p public_id id
              (get_of_find_key b.public_index id p h.index_distinct e) found)
  ]

  -- an entry that goes takes its public id along
  retire_public_state :
      (public_id id : String) (state : TerminalState) (b : Broker C R)
      → WellFormed b
      → 0 < b.max_pending
      → get b.public_index public_id ≡ some id
      → (get (retire id state b).public_index public_id ≡ none)
        × (get (retire id state b).public_terminal public_id ≡ some state)
  unfolding retire remember_terminal retire_public
  retire_public_state public_id id state b h pos found = rw (public_id_of public_id id b h found) (
    ground (arith, get-remove b.public_index public_id public_id, eq_iff public_id public_id),
    get-trim-put b.max_pending b.public_terminal public_id state pos
        (h.index_open public_id id found),
  )

  retired_maps :
      (public_id id : String) (state : TerminalState) (b : Broker C R)
      → WellFormed b
      → get b.public_index public_id ≡ some id
      → ((retire id state b).entries ≡ remove b.entries id)
        × ((retire id state b).public_index ≡ remove b.public_index public_id)
        × ((retire id state b).settled ≡ b.settled)
  unfolding retire remember_terminal retire_public
  retired_maps public_id id state b h found =
      rw (public_id_of public_id id b h found) (refl, refl, refl)

  -- In a well-formed broker, a claim by public id that resolves takes the entry that the id names.
  -- Where a profile is expected, the entry belongs to it. Exactly the context kept there is handed
  -- over, to the caller and to each promise that waits for the entry, after all that was settled
  -- before. The entry and the public id are then gone, and every other entry and public id is as it
  -- was.
  pub claim_public-resolved :
      (public_id : String) (expected : Option RouterProfile) (b : Broker C R)
      → WellFormed b
      → (claim_by_public_tool_call_id public_id expected b).1.outcome ≡ ResolveOutcome.resolved
      → (id : String) × (entry : Entry C) × (get b.public_index public_id ≡ some id)
        × (get b.entries id ≡ some entry)
        × IsOwner expected entry
        × let (b', claim) = claim_by_public_tool_call_id public_id expected b in
          (claim.context ≡ entry.context)
          × (b'.settled ≡ b.settled ++ map (λ w. (w, claimed entry.context)) entry.waiters)
          × ((other : String)
              → get b'.entries other ≡ (if id == other then none else get b.entries other))
          × ((other : String)
              → get b'.public_index other
                ≡ (if public_id == other then none else get b.public_index other))
  unfolding settle
  claim_public-resolved public_id expected b h r =
      let (id, entry, found, there, owned, e) = claimed_entry public_id expected b r in
      let (entries, index, settled) = retired_maps public_id id TerminalState.resolved b h found in
      let promised = map (λ w. (w, claimed entry.context)) entry.waiters in
      (
        id,
        entry,
        found,
        there,
        owned,
        rw e (
          refl,
          ap (λ s. s ++ promised) settled,
          λ other. ap (λ m. get m other) entries ∙ get-remove b.entries id other,
          λ other. ap (λ m. get m other) index ∙ get-remove b.public_index public_id other,
        ),
      )

  claim_spent :
      (public_id : String) (expected : Option RouterProfile) (state : TerminalState)
      (b : Broker C R)
      → (get b.public_index public_id ≡ none) × (get b.public_terminal public_id ≡ some state)
      → claim_by_public_tool_call_id public_id expected b
        ≡ (b, record { outcome = outcome_of (some state); context = none })
  unfolding claim_by_public_tool_call_id
  claim_spent public_id expected state b (absent, known) =
      rw (absent, known, claim_by_public_tool_call_id)

  pub claim_state :
      (public_id : String) (expected : Option RouterProfile) (b : Broker C R)
      → WellFormed b
      → 0 < b.max_pending
      → (claim_by_public_tool_call_id public_id expected b).1.outcome ≡ ResolveOutcome.resolved
      → (get (claim_by_public_tool_call_id public_id expected b).0.public_index public_id ≡ none)
        × (get (claim_by_public_tool_call_id public_id expected b).0.public_terminal public_id
            ≡ some TerminalState.resolved)
  unfolding claim_by_public_tool_call_id take settle
  claim_state public_id expected b h pos r =
      let (id, entry, found, there, owned, _) = claimed_entry public_id expected b r in
      ground (
        arith,
        found,
        there,
        owned,
        retire_public_state public_id id TerminalState.resolved b h pos found,
      )

  -- A call is claimed once: after a claim that resolved, the next claim of the same public id, by
  -- whomever, is answered `duplicate` with no context and changes nothing.
  pub claim_again :
      (public_id : String) (expected expected' : Option RouterProfile) (b : Broker C R)
      → WellFormed b
      → 0 < b.max_pending
      → (claim_by_public_tool_call_id public_id expected b).1.outcome ≡ ResolveOutcome.resolved
      → let b' = (claim_by_public_tool_call_id public_id expected b).0 in
        claim_by_public_tool_call_id public_id expected' b'
        ≡ (b', record { outcome = ResolveOutcome.duplicate; context = none })
  claim_again public_id expected expected' b h pos r =
      claim_spent public_id expected' TerminalState.resolved _
        (claim_state public_id expected b h pos r)

  fail_state :
      (public_id id : String) (state : TerminalState) (entry : Entry C) (b : Broker C R)
      → WellFormed b
      → 0 < b.max_pending
      → get b.public_index public_id ≡ some id
      → get b.entries id ≡ some entry
      → (get (fail_entry id state b).public_index public_id ≡ none)
        × (get (fail_entry id state b).public_terminal public_id ≡ some state)
  unfolding fail_entry settle
  fail_state public_id id state entry b h pos found there =
      ground (arith, there, retire_public_state public_id id state b h pos found)

  -- In a well-formed broker that can remember a terminal state, a claim of a pending call that comes
  -- after the call has expired or was cancelled is answered `stale` with no context, whoever claims,
  -- and changes nothing.
  pub claim-fail_entry :
      (public_id id : String) (expired : Bool) (expected : Option RouterProfile) (entry : Entry C)
      (b : Broker C R)
      → WellFormed b
      → 0 < b.max_pending
      → get b.public_index public_id ≡ some id
      → get b.entries id ≡ some entry
      → let b' =
          fail_entry id (if expired then TerminalState.expired else TerminalState.cancelled) b in
        claim_by_public_tool_call_id public_id expected b'
        ≡ (b', record { outcome = ResolveOutcome.stale; context = none })
  claim-fail_entry public_id id true expected entry b h pos found there =
      claim_spent public_id expected TerminalState.expired _
        (fail_state public_id id TerminalState.expired entry b h pos found there)
  claim-fail_entry public_id id false expected entry b h pos found there =
      claim_spent public_id expected TerminalState.cancelled _
        (fail_state public_id id TerminalState.cancelled entry b h pos found there)
