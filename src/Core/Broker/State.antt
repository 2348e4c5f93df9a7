-- ===== src/Core/Broker/State.antt =====
-- src/core/deferred-tool-broker.ts: the broker's state, and how an entry leaves it.
use cmm_routers.Prelude.{
  ℕ, String, Bool, Option, none, some, List, [], ◌++◌, map, get_or_else, string_eq,
}
use cmm_routers.Prelude.OrderedMap.{OrderedMap, get, put, remove}
use cmm_routers.Prelude.OrderedMap.Distinct.{find_key}
use cmm_routers.Prelude.OrderedMap.Eviction.{trim}
use cmm_routers.Core.Errors.{RouterError, router_error, provider_protocol_error, provider_timeout}
use cmm_routers.Core.Profile.{RouterProfile, profile_eq}
use cmm_routers.Core.Model.{ProviderId}

pub data TerminalState : Type 0 where
  resolved expired cancelled : TerminalState

pub data ResolveOutcome : Type 0 where
  resolved duplicate stale unknown : ResolveOutcome

pub record ClaimResult (C : Type 0) : Type 0 where
  pub outcome : ResolveOutcome
  pub context : Option C

pub data Settlement (C R : Type 0) : Type 0 where
  -- resolved by a claim, with the retained context
  claimed : Option C → Settlement C R
  -- resolved by `resolveCall`, with the result
  answered : R → Settlement C R
  rejected : RouterError → Settlement C R

pub record Entry (C : Type 0) : Type 0 where
  pub profile : RouterProfile
  pub provider : ProviderId
  pub session_id : String
  pub context : Option C
  pub waiters : List ℕ
  pub due : ℕ

pub record Signal : Type 0 where
  pub id : ℕ
  pub aborted : Bool

pub record Broker (C R : Type 0) : Type 0 where
  pub entries : OrderedMap String (Entry C)
  pub terminal : OrderedMap String TerminalState
  pub public_index : OrderedMap String String
  pub public_terminal : OrderedMap String TerminalState
  pub max_pending : ℕ
  pub default_ttl_ms : ℕ
  pub listeners : List (ℕ × String)
  pub settled : List (ℕ × Settlement C R)

-- what a late or repeated result is answered
abbrev pub outcome_of : Option TerminalState → ResolveOutcome
outcome_of none = ResolveOutcome.unknown
outcome_of (some TerminalState.resolved) = ResolveOutcome.duplicate
outcome_of (some TerminalState.expired) = ResolveOutcome.stale
outcome_of (some TerminalState.cancelled) = ResolveOutcome.stale

abbrev pub failure_error : TerminalState → RouterError
failure_error TerminalState.expired = router_error provider_timeout "Deferred tool call expired"
failure_error _ = router_error provider_protocol_error "Deferred tool call cancelled"

module _ {C R : Type 0} where
  unfoldable pub new : Option ℕ → Option ℕ → Broker C R
  new max_pending default_ttl_ms = record {
    entries = [];
    terminal = [];
    public_index = [];
    public_terminal = [];
    max_pending = get_or_else max_pending 64;
    default_ttl_ms = get_or_else default_ttl_ms 120000;
    listeners = [];
    settled = [];
  }

  -- for (const waiter of entry.waiters) …
  unfoldable pub settle : List ℕ → Settlement C R → Broker C R → Broker C R
  settle waiters s b = record b { settled = b.settled ++ map (λ w. (w, s)) waiters }

  -- the loop over `publicIndex` in `rememberTerminal`, given the first match
  unfoldable pub retire_public : Option String → TerminalState → Broker C R → Broker C R
  retire_public none state b = b
  retire_public (some public_id) state b = record b {
    public_index = remove b.public_index public_id;
    public_terminal = trim b.max_pending (put b.public_terminal public_id state);
  }

  unfoldable pub remember_terminal : String → TerminalState → Broker C R → Broker C R
  unfolding retire_public
  remember_terminal id state b =
      let b' = retire_public (find_key b.public_index id) state b in
      record b' { terminal = trim b'.max_pending (put b'.terminal id state) }

  -- `entries.delete(id)`, then `rememberTerminal`; the timer goes with the entry
  unfoldable pub retire : String → TerminalState → Broker C R → Broker C R
  retire id state b = remember_terminal id state (record b { entries = remove b.entries id })

  unfoldable pub fail_entry : String → TerminalState → Broker C R → Broker C R
  fail_entry id state b = elim (get b.entries id) [
    | none ↦ b
    | some entry ↦ settle entry.waiters (rejected (failure_error state)) (retire id state b)
  ]

  unfoldable pub take : String → Broker C R → Broker C R × ClaimResult C
  take id b = elim (get b.entries id) [
    | none ↦ (b, record { outcome = outcome_of (get b.terminal id); context = none })
    | some entry ↦ (
      settle entry.waiters (claimed entry.context) (retire id TerminalState.resolved b),
      record { outcome = ResolveOutcome.resolved; context = entry.context },
    )
  ]
