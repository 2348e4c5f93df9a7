-- ===== src/Core/Broker/Operations.antt =====
-- src/core/deferred-tool-broker.ts: the public operations of the broker, its timers and its
-- abort listeners.
use cmm_routers.Prelude.{
  ℕ, ◌+◌, String, Bool, true, false, ◌||◌, Option, none, some, List, [], ◌∷◌, ◌++◌, map, leb,
  length, get_or_else, string_eq, nat_eq, ◌==◌, if◌then◌else◌,
}
use cmm_routers.Prelude.OrderedMap.{get, put, remove, has}
use cmm_routers.Core.Errors.{
  Result, ok, err, router_error, provider_protocol_error, provider_rate_limited,
}
use cmm_routers.Core.Profile.{RouterProfile, profile_eq}
use cmm_routers.Core.Model.{ProviderId}
use cmm_routers.Core.Broker.Key.{BrokerKey, require_profile, key_of, in_scope}
use cmm_routers.Core.Broker.State.{
  TerminalState, ResolveOutcome, ClaimResult, answered, rejected, Entry, Signal, Broker, outcome_of,
  settle, retire, fail_entry, take,
}

-- does the entry belong to the profile that is expected, if one is
abbrev pub owned_by : {C : Type 0} → Option RouterProfile → Option (Entry C) → Bool
owned_by none entry = true
owned_by (some profile) none = false
owned_by (some profile) (some entry) = entry.profile == profile

abbrev pub listening : ℕ → List (ℕ × String) → List String
listening signal [] = []
listening signal ((s, id) ∷ rest) =
    if s == signal then id ∷ listening signal rest else listening signal rest

abbrev pub others : ℕ → List (ℕ × String) → List (ℕ × String)
others signal [] = []
others signal ((s, id) ∷ rest) =
    if s == signal then others signal rest else (s, id) ∷ others signal rest

module _ {C R : Type 0} where
  unfoldable pub public_id_taken : Broker C R → Option String → Bool
  public_id_taken b none = false
  public_id_taken b (some p) = has b.public_index p || has b.public_terminal p

  unfoldable pub index_public : Option String → String → Broker C R → Broker C R
  index_public none id b = b
  index_public (some p) id b = record b { public_index = put b.public_index p id }

  unfoldable pub watch : Option Signal → String → Broker C R → Broker C R
  watch none id b = b
  watch (some signal) id b =
      if signal.aborted
      then fail_entry id TerminalState.cancelled b
      else record b { listeners = b.listeners ++ (signal.id, id) ∷ [] }

  -- the part of `createPendingCall` after its checks
  unfoldable pub open_entry :
      Entry C → Option String → Option Signal → String → Broker C R → Broker C R
  unfolding index_public watch
  open_entry entry public_id signal id b =
      watch signal id (index_public public_id id (record b { entries = put b.entries id entry }))

  unfoldable pub forget_terminal : String → Broker C R → Broker C R
  forget_terminal id b = record b { terminal = remove b.terminal id }

  unfoldable pub create_checked :
      RouterProfile
      → String
      → BrokerKey
      → Option ℕ
      → Option Signal
      → Option C
      → ℕ
      → Broker C R
      → Broker C R × Result (Unit {0})
  unfolding public_id_taken
  create_checked profile id key ttl_ms signal context now b =
      if has b.entries id
      then (b, err (router_error provider_protocol_error "Duplicate pending tool call"))
      else if public_id_taken b key.public_tool_call_id
      then (b, err (router_error provider_protocol_error "Duplicate public tool call id"))
      else if leb b.max_pending (length b.entries)
      then (
        forget_terminal id b,
        err (
            router_error provider_rate_limited
              "Tool broker pending state bounded; refusing new entry"),
      )
      else (
        open_entry
            (record {
              profile = profile;
              provider = key.provider;
              session_id = key.session_id;
              context = context;
              waiters = [];
              due = now + get_or_else ttl_ms b.default_ttl_ms;
            })
            key.public_tool_call_id signal id (forget_terminal id b),
        ok tt,
      )

  unfoldable pub create_pending_call :
      BrokerKey
      → Option ℕ
      → Option Signal
      → Option C
      → ℕ
      → Broker C R
      → Broker C R × Result (Unit {0})
  unfolding create_checked
  create_pending_call key ttl_ms signal context now b = elim (require_profile key.profile) [
    | err e ↦ (b, err e)
    | ok profile ↦ elim (key_of key) [
      | err e ↦ (b, err e)
      | ok id ↦ create_checked profile id key ttl_ms signal context now b
    ]
  ]

  -- A malformed key throws; an unknown one gives a promise that is rejected.
  unfoldable pub await_call :
      BrokerKey → (promise : ℕ) → Broker C R → Broker C R × Result (Unit {0})
  await_call key promise b = elim (key_of key) [
    | err e ↦ (b, err e)
    | ok id ↦ elim (get b.entries id) [
      | none ↦ (
        settle (promise ∷ [])
            (rejected (router_error provider_protocol_error "Unknown pending tool call")) b,
        ok tt,
      )
      | some entry ↦ (
        record b {
          entries = put b.entries id (record entry { waiters = entry.waiters ++ promise ∷ [] });
        },
        ok tt,
      )
    ]
  ]

  unfoldable pub claim_by_public_tool_call_id :
      String → Option RouterProfile → Broker C R → Broker C R × ClaimResult C
  claim_by_public_tool_call_id public_id expected b = elim (get b.public_index public_id) [
    | none ↦ (b, record { outcome = outcome_of (get b.public_terminal public_id); context = none })
    | some id ↦
        if owned_by expected (get b.entries id)
        then take id b
        else (b, record { outcome = ResolveOutcome.unknown; context = none })
  ]

  unfoldable pub claim_call : BrokerKey → Broker C R → Broker C R × Result (ClaimResult C)
  claim_call key b = elim (key_of key) [
    | err e ↦ (b, err e)
    | ok id ↦ let (b', claim) = take id b in (b', ok claim)
  ]

  unfoldable pub resolve_call : BrokerKey → R → Broker C R → Broker C R × Result ResolveOutcome
  resolve_call key result b = elim (key_of key) [
    | err e ↦ (b, err e)
    | ok id ↦ elim (get b.entries id) [
      | none ↦ (b, ok (outcome_of (get b.terminal id)))
      | some entry ↦ (
        settle entry.waiters (answered result) (retire id TerminalState.resolved b),
        ok ResolveOutcome.resolved,
      )
    ]
  ]

  unfoldable pub cancel_ids :
      Option String → Option ProviderId → List String → Broker C R → Broker C R
  cancel_ids session provider [] b = b
  cancel_ids session provider (id ∷ ids) b =
      cancel_ids session provider ids
        (if in_scope session provider id then fail_entry id TerminalState.cancelled b else b)

  -- over a copy of the entries
  unfoldable pub cancel_scope : Option String → Option ProviderId → Broker C R → Broker C R
  unfolding cancel_ids
  cancel_scope session provider b = cancel_ids session provider (map (λ kv. kv.0) b.entries) b

  unfoldable pub active_count : Broker C R → ℕ
  active_count b = length b.entries

  unfoldable pub terminal_count : Broker C R → ℕ
  terminal_count b = length b.terminal + length b.public_terminal

  -- A timer's callback: it runs once its time has come, if its entry has not been removed before.
  unfoldable pub timer : String → (now : ℕ) → Broker C R → Broker C R
  timer id now b = elim (get b.entries id) [
    | none ↦ b
    | some entry ↦ if leb entry.due now then fail_entry id TerminalState.expired b else b
  ]

  unfoldable pub fail_entries : List String → TerminalState → Broker C R → Broker C R
  fail_entries [] state b = b
  fail_entries (id ∷ ids) state b = fail_entries ids state (fail_entry id state b)

  -- A signal aborts: its listeners, each `once`, run in their order.
  unfoldable pub abort : ℕ → Broker C R → Broker C R
  unfolding fail_entries
  abort signal b =
      fail_entries (listening signal b.listeners) TerminalState.cancelled
        (record b { listeners = others signal b.listeners })
