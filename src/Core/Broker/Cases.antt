-- ===== src/Core/Broker/Cases.antt =====
-- What every event comes to: entries that go with their promises settled, a terminal state that is
-- forgotten, an entry that is opened, listeners that change. A property that these keep, every event
-- but `await` keeps.
use text.Mathlib.TextEquality.{eq_iff}
use cmm_routers.Prelude.{
  ℕ, ◌<◌, String, ◌≡◌, refl, ◌∙◌, Bool, true, false, Option, none, some, List, [], ◌∷◌, ◌++◌, arith,
  length, leb, string_eq, if◌then◌else◌, Option-cases, Bool-cases, inl, inr, lt_of_not_leb, map,
}
use cmm_routers.Prelude.OrderedMap.{get, put, get-remove}
use cmm_routers.Core.Errors.{RouterError, ok, err, Result-cases}
use cmm_routers.Core.Profile.{RouterProfile}
use cmm_routers.Core.Model.{ProviderId}
use cmm_routers.Core.Broker.Key.{BrokerKey, key_of, require_profile, in_scope}
use cmm_routers.Core.Broker.State.{
  TerminalState, Settlement, Entry, Signal, Broker, settle, retire, fail_entry, take,
}
use cmm_routers.Core.Broker.Operations.{
  public_id_taken, forget_terminal, index_public, watch, open_entry, create_checked,
  create_pending_call, await_call, claim_by_public_tool_call_id, claim_call, resolve_call,
  cancel_ids, cancel_scope, timer, abort, fail_entries, owned_by, listening, others,
}
use cmm_routers.Core.Broker.Events.{
  Event, create, await, claim_public, claim, resolve, cancel, timer_due, aborts, step,
}

-- `Allowed` says under which public ids calls are created.
pub record Keeps {C R : Type 0} (Allowed : Option String → Type 0) (P : Broker C R → Type 0)
    : Type 0 where
  pub removed :
      (id : String) (entry : Entry C) (state : TerminalState) (s : Settlement C R) (b : Broker C R)
      → get b.entries id ≡ some entry
      → P b
      → P (settle entry.waiters s (retire id state b))
  pub forgot : (id : String) (b : Broker C R) → P b → P (forget_terminal id b)
  pub opened :
      (entry : Entry C) (public_id : Option String) (id : String) (b : Broker C R)
      → Allowed public_id
      → entry.waiters ≡ []
      → get b.entries id ≡ none
      → get b.terminal id ≡ none
      → public_id_taken b public_id ≡ false
      → length b.entries < b.max_pending
      → P b
      → P (index_public public_id id (record b { entries = put b.entries id entry }))
  pub listens :
      (listeners : List (ℕ × String)) (b : Broker C R)
      → P b
      → P (record b { listeners = listeners })

abbrev pub IsAllowed : {C R : Type 0} → (Option String → Type 0) → Event C R → Type 0
IsAllowed Allowed (create key ttl signal context now) = Allowed key.public_tool_call_id
IsAllowed Allowed (await key promise) = ⊥
IsAllowed Allowed _ = Unit

terminal-forget_terminal :
    {C R : Type 0} (id : String) (b : Broker C R) → get (forget_terminal id b).terminal id ≡ none
unfolding forget_terminal
terminal-forget_terminal id b = ground (arith, get-remove b.terminal id id, eq_iff id id)

public_id_taken-forget_terminal :
    {C R : Type 0} (public_id : Option String) (id : String) (b : Broker C R)
    → public_id_taken (forget_terminal id b) public_id ≡ public_id_taken b public_id
unfolding forget_terminal public_id_taken
public_id_taken-forget_terminal none id b = refl
public_id_taken-forget_terminal (some p) id b = refl

module _ {C R : Type 0} (Allowed : Option String → Type 0) (P : Broker C R → Type 0)
    (k : Keeps Allowed P) where
  fail_entry-keeps :
      (id : String) (state : TerminalState) (b : Broker C R) → P b → P (fail_entry id state b)
  unfolding fail_entry
  fail_entry-keeps id state b h = elim (Option-cases (get b.entries id)) [
    | inl missed ↦ rw (missed, fail_entry) h
    | inr (entry, found) ↦ rw (found, fail_entry) (k.removed id entry state _ b found h)
  ]

  take-keeps : (id : String) (b : Broker C R) → P b → P (take id b).0
  unfolding take
  take-keeps id b h = elim (Option-cases (get b.entries id)) [
    | inl missed ↦ rw (missed, take) h
    | inr (entry, found) ↦ rw (found, take) (k.removed id entry TerminalState.resolved _ b found h)
  ]

  watch-keeps :
      (signal : Option Signal) (id : String) (b : Broker C R) → P b → P (watch signal id b)
  unfolding watch
  watch-keeps none id b h = h
  watch-keeps (some signal) id b h = elim (Bool-cases signal.aborted) [
    | inl gone ↦ rw (gone, watch) (fail_entry-keeps id TerminalState.cancelled b h)
    | inr live ↦ rw (live, watch) (k.listens _ b h)
  ]

  create_checked-keeps :
      (profile : RouterProfile) (id : String) (key : BrokerKey) (ttl : Option ℕ)
      (signal : Option Signal) (context : Option C) (now : ℕ) (b : Broker C R)
      → Allowed key.public_tool_call_id
      → P b
      → P (create_checked profile id key ttl signal context now b).0
  unfolding open_entry create_checked
  create_checked-keeps profile id key ttl signal context now b a h =
      elim (Option-cases (get b.entries id)) [
        | inr (entry, there) ↦ rw (there, create_checked) h
        | inl absent ↦ elim (Bool-cases (public_id_taken b key.public_tool_call_id)) [
          | inl taken ↦ rw (absent, taken, create_checked) h
          | inr free ↦ elim (Bool-cases (leb b.max_pending (length b.entries))) [
            | inl full ↦ rw (absent, free, full, create_checked) (k.forgot id b h)
            | inr room ↦
                rw (absent, free, room, create_checked)
                  (watch-keeps signal id _ (
                    k.opened _ key.public_tool_call_id id (forget_terminal id b) a refl
                      (unfold forget_terminal in absent) (terminal-forget_terminal id b)
                      (public_id_taken-forget_terminal key.public_tool_call_id id b ∙ free)
                      (unfold forget_terminal in lt_of_not_leb _ _ room) (k.forgot id b h)))
          ]
        ]
      ]

  create-keeps :
      (key : BrokerKey) (ttl : Option ℕ) (signal : Option Signal) (context : Option C) (now : ℕ)
      (b : Broker C R)
      → Allowed key.public_tool_call_id
      → P b
      → P (create_pending_call key ttl signal context now b).0
  unfolding create_pending_call
  create-keeps key ttl signal context now b a h =
      elim (Result-cases (require_profile key.profile)) [
        | inl (e, bad) ↦ rw (bad, create_pending_call) h
        | inr (profile, good) ↦ elim (Result-cases (key_of key)) [
          | inl (e, bad) ↦ rw (good, bad, create_pending_call) h
          | inr (id, fine) ↦
              rw (good, fine, create_pending_call)
                (create_checked-keeps profile id key ttl signal context now b a h)
        ]
      ]

  claim_public-keeps :
      (public_id : String) (expected : Option RouterProfile) (b : Broker C R)
      → P b
      → P (claim_by_public_tool_call_id public_id expected b).0
  unfolding claim_by_public_tool_call_id
  claim_public-keeps public_id expected b h = elim (Option-cases (get b.public_index public_id)) [
    | inl absent ↦ rw (absent, claim_by_public_tool_call_id) h
    | inr (id, found) ↦ elim (Bool-cases (owned_by expected (get b.entries id))) [
      | inl mine ↦ rw (found, mine, claim_by_public_tool_call_id) (take-keeps id b h)
      | inr foreign ↦ rw (found, foreign, claim_by_public_tool_call_id) h
    ]
  ]

  claim-keeps : (key : BrokerKey) (b : Broker C R) → P b → P (claim_call key b).0
  unfolding claim_call
  claim-keeps key b h = elim (Result-cases (key_of key)) [
    | inl (e, bad) ↦ rw (bad, claim_call) h
    | inr (id, fine) ↦ rw (fine, claim_call) (take-keeps id b h)
  ]

  resolve-keeps :
      (key : BrokerKey) (result : R) (b : Broker C R) → P b → P (resolve_call key result b).0
  unfolding resolve_call
  resolve-keeps key result b h = elim (Result-cases (key_of key)) [
    | inl (e, bad) ↦ rw (bad, resolve_call) h
    | inr (id, fine) ↦ elim (Option-cases (get b.entries id)) [
      | inl absent ↦ rw (fine, absent, resolve_call) h
      | inr (entry, found) ↦
          rw (fine, found, resolve_call) (k.removed id entry TerminalState.resolved _ b found h)
    ]
  ]

  if-keeps : (t : Bool) (b b' : Broker C R) → P b → P b' → P (if t then b else b')
  if-keeps true b b' h h' = h
  if-keeps false b b' h h' = h'

  cancel_ids-keeps :
      (session : Option String) (provider : Option ProviderId) (ids : List String) (b : Broker C R)
      → P b
      → P (cancel_ids session provider ids b)
  unfolding cancel_ids
  cancel_ids-keeps session provider [] b h = h
  cancel_ids-keeps session provider (id ∷ ids) b h = cancel_ids-keeps session provider ids _ (
      if-keeps (in_scope session provider id) _ b (fail_entry-keeps id TerminalState.cancelled b h)
        h)

  timer-keeps : (id : String) (now : ℕ) (b : Broker C R) → P b → P (timer id now b)
  unfolding timer
  timer-keeps id now b h = elim (Option-cases (get b.entries id)) [
    | inl absent ↦ rw (absent, timer) h
    | inr (entry, found) ↦
        rw (found, timer)
          (if-keeps (leb entry.due now) _ b (fail_entry-keeps id TerminalState.expired b h) h)
  ]

  fail_entries-keeps :
      (ids : List String) (state : TerminalState) (b : Broker C R)
      → P b
      → P (fail_entries ids state b)
  unfolding fail_entries
  fail_entries-keeps [] state b h = h
  fail_entries-keeps (id ∷ ids) state b h =
      fail_entries-keeps ids state _ (fail_entry-keeps id state b h)

  pub step-keeps : (b : Broker C R) (e : Event C R) → IsAllowed Allowed e → P b → P (step b e)
  unfolding step cancel_scope abort
  step-keeps b (create key ttl signal context now) a h =
      create-keeps key ttl signal context now b a h
  step-keeps b (await key promise) a h = elim a [ ]
  step-keeps b (claim_public id expected) a h = claim_public-keeps id expected b h
  step-keeps b (claim key) a h = claim-keeps key b h
  step-keeps b (resolve key result) a h = resolve-keeps key result b h
  step-keeps b (cancel session provider) a h =
      cancel_ids-keeps session provider (map (λ kv. kv.0) b.entries) b h
  step-keeps b (timer_due id now) a h = timer-keeps id now b h
  step-keeps b (aborts signal) a h =
      fail_entries-keeps (listening signal b.listeners) TerminalState.cancelled _
        (k.listens (others signal b.listeners) b h)

-- The three ways of `await`: a malformed key, an unknown one, and a pending one.
pub await_cases :
    {C R : Type 0} (P : Broker C R → Type 0) (key : BrokerKey) (promise : ℕ) (b : Broker C R)
    → ((e : RouterError) → key_of key ≡ err e → P b)
    → ((id : String) → key_of key ≡ ok id → (s : Settlement C R) → P (settle (promise ∷ []) s b))
    → ((id : String) (entry : Entry C)
        → key_of key ≡ ok id
        → get b.entries id ≡ some entry
        → P (record b {
          entries = put b.entries id (record entry { waiters = entry.waiters ++ promise ∷ [] });
        }))
    → P (step b (await key promise))
unfolding step await_call
await_cases P key promise b malformed unknown pending = elim (Result-cases (key_of key)) [
  | inl (e, bad) ↦ rw (step, bad, await_call) (malformed e bad)
  | inr (id, fine) ↦ elim (Option-cases (get b.entries id)) [
    | inl absent ↦ rw (step, fine, absent, await_call) (unknown id fine _)
    | inr (entry, found) ↦ rw (step, fine, found, await_call) (pending id entry fine found)
  ]
]
