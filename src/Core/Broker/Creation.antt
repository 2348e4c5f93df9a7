-- ===== src/Core/Broker/Creation.antt =====
-- What `createPendingCall` does when it refuses a call and when it accepts one.
use text.Mathlib.TextEquality.{eq_iff}
use cmm_routers.Prelude.{
  ℕ, ◌+◌, ◌<◌, String, ◌≡◌, Bool, false, Option, none, some, [], arith, length, get_or_else,
  string_eq, nat_eq, Option-cases, inl, inr,
}
use cmm_routers.Prelude.OrderedMap.{get, put, remove, get-put}
use cmm_routers.Core.Errors.{RouterError, ok, err, Result-cases}
use cmm_routers.Core.Profile.{RouterProfile}
use cmm_routers.Core.Broker.Key.{BrokerKey, key_of, require_profile}
use cmm_routers.Core.Broker.State.{Entry, Signal, Broker}
use cmm_routers.Core.Broker.Operations.{
  forget_terminal, index_public, watch, open_entry, create_checked, create_pending_call,
}

abbrev is_aborted : Option Signal → Bool
is_aborted none = false
is_aborted (some signal) = signal.aborted

-- what a refused call leaves alone
pub record SameCalls {C R : Type 0} (b b' : Broker C R) : Type 0 where
  pub entries : b'.entries ≡ b.entries
  pub public_index : b'.public_index ≡ b.public_index
  pub public_terminal : b'.public_terminal ≡ b.public_terminal
  pub listeners : b'.listeners ≡ b.listeners
  pub settled : b'.settled ≡ b.settled

module _ {C R : Type 0} (key : BrokerKey) (ttl : Option ℕ) (signal : Option Signal)
    (context : Option C) (now : ℕ) where
  -- A refused call, for whatever reason, leaves the pending calls, the public ids, the listeners
  -- and the promises as they were.
  pub create-refused :
      (b : Broker C R) (e : RouterError)
      → (create_pending_call key ttl signal context now b).1 ≡ err e
      → SameCalls b (create_pending_call key ttl signal context now b).0
  unfolding create_pending_call create_checked forget_terminal
  create-refused b e h = ground (arith, h)

  -- the entry that a call opens
  abbrev pub opened_entry : RouterProfile → Broker C R → Entry C
  opened_entry profile b = record {
    profile = profile;
    provider = key.provider;
    session_id = key.session_id;
    context = context;
    waiters = [];
    due = now + get_or_else ttl b.default_ttl_ms;
  }

  entries-watch_open :
      (id : String) (entry : Entry C) (b : Broker C R)
      → is_aborted signal ≡ false
      → (open_entry entry key.public_tool_call_id signal id b).entries ≡ put b.entries id entry
  unfolding open_entry index_public watch
  entries-watch_open id entry b h = ground arith

  -- An accepted call had a profile and a well-formed key that was not pending, there was room for
  -- it, and unless its signal had aborted it is now pending under its key, for its profile and with
  -- its context, its deadline counted from now.
  pub create-accepted :
      (b : Broker C R)
      → (create_pending_call key ttl signal context now b).1 ≡ ok tt
      → is_aborted signal ≡ false
      → (id : String) × (profile : RouterProfile) × (key_of key ≡ ok id)
        × (key.profile ≡ some profile)
        × (get b.entries id ≡ none)
        × (length b.entries < b.max_pending)
        × (get (create_pending_call key ttl signal context now b).0.entries id
            ≡ some (opened_entry profile b))
  unfolding create_pending_call create_checked forget_terminal require_profile
  create-accepted b h live = elim (Option-cases key.profile) [
    | inl missing ↦ absurd (ground arith)
    | inr (profile, owner) ↦ elim (Result-cases (key_of key)) [
      | inl (e, bad) ↦ absurd (ground arith)
      | inr (id, fine) ↦ (
        id,
        profile,
        fine,
        owner,
        ground arith,
        ground arith,
        ground (
          arith,
          entries-watch_open id (opened_entry profile b)
              (record b { terminal = remove b.terminal id }) live,
          get-put b.entries id id (opened_entry profile b),
          eq_iff id id,
        ),
      )
    ]
  ]
