-- ===== src/Core/Broker/Tests.antt =====
-- The broker on concrete calls.

use cmm_routers.Prelude.{
  ℕ, ◌+◌, ◌<◌, String, ◌≡◌, ◌≢◌, refl, true, none, some, List, [], ◌∷◌, ◌++◌, map, arith, length,
  string_eq, nat_eq, ◌==◌, if◌then◌else◌,
}
use cmm_routers.Prelude.OrderedMap.{get, put, remove}
use cmm_routers.Prelude.OrderedMap.Distinct.{find_key}
use cmm_routers.Prelude.OrderedMap.Eviction.{trim}
use cmm_routers.Core.Errors.{ok, err, router_error, provider_protocol_error, template}
use cmm_routers.Core.Profile.{agent, profile_eq}
use cmm_routers.Core.Model.{chatgpt}
use cmm_routers.Core.Broker.Key.{
  BrokerKey, key_of, key_text, require_profile, split_bar, split_scope,
}
use cmm_routers.Core.Broker.State.{
  Broker, Entry, ResolveOutcome, TerminalState, claimed, fail_entry, new, settle, retire,
  retire_public, remember_terminal, take,
}
use cmm_routers.Core.Broker.Operations.{
  public_id_taken, index_public, watch, open_entry, forget_terminal, create_checked,
  create_pending_call, await_call, claim_by_public_tool_call_id, cancel_scope,
}
use cmm_routers.Core.Broker.Events.{Event, create, await, timer_due, step, run}
use cmm_routers.Core.Broker.Invariant.{WellFormed}
use cmm_routers.Core.Broker.Preservation.{run-new-WellFormed}
use cmm_routers.Core.Broker.Claims.{IsOwner, claim_public-resolved, claim_again, claim-fail_entry}
use cmm_routers.Core.Broker.Spent.{claim_once}
use cmm_routers.Core.Broker.Creation.{SameCalls, create-refused}
use cmm_routers.Core.Broker.Scope.{cancel_scope-key}
use cmm_routers.Core.Broker.Waiting.{settled_times, waiting_times}
use cmm_routers.Core.Broker.Promises.{asked_times, promises_conserved}

abbrev weather_key : BrokerKey
weather_key = record {
  profile = some agent;
  provider = chatgpt;
  session_id = "s1";
  turn_id = none;
  tool_call_id = "t1";
  public_tool_call_id = some "cmm_1";
}

abbrev weather_id : String
weather_id = "AGENT|chatgpt|s1||t1"

abbrev events : List (Event ℕ ℕ)
events = create weather_key none none (some 7) 0 ∷ await weather_key 1 ∷ []

abbrev waiting : Broker ℕ ℕ
waiting = run (new (some 2) none) events

abbrev waiting_entry : Entry ℕ
waiting_entry = record {
  profile = agent;
  provider = chatgpt;
  session_id = "s1";
  context = some 7;
  waiters = 1 ∷ [];
  due = 120000;
}

one_waits : length waiting.entries ≡ 1
unfolding run step new create_pending_call create_checked forget_terminal open_entry index_public
    watch public_id_taken await_call key_of require_profile key_text template get put remove
one_waits = refl

run-new-WellFormed_example : WellFormed (run (new {C = ℕ} {R = ℕ} (some 2) none) events)
run-new-WellFormed_example = run-new-WellFormed {C = ℕ} {R = ℕ} (some 2) none events

claim_resolves :
    (claim_by_public_tool_call_id "cmm_1" (some agent) waiting).1.outcome ≡ ResolveOutcome.resolved
unfolding run step new create_pending_call create_checked forget_terminal open_entry index_public
    watch public_id_taken await_call claim_by_public_tool_call_id take retire remember_terminal
    retire_public settle trim find_key key_of require_profile key_text template get put remove
claim_resolves = refl

is_indexed : get waiting.public_index "cmm_1" ≡ some weather_id
unfolding run step new create_pending_call create_checked forget_terminal open_entry index_public
    watch public_id_taken await_call claim_by_public_tool_call_id take retire remember_terminal
    retire_public settle trim find_key key_of require_profile key_text template get put remove
is_indexed = refl

is_pending : get waiting.entries weather_id ≡ some waiting_entry
unfolding run step new create_pending_call create_checked forget_terminal open_entry index_public
    watch public_id_taken await_call claim_by_public_tool_call_id take retire remember_terminal
    retire_public settle trim find_key key_of require_profile key_text template get put remove
is_pending = refl

has_room : 0 < waiting.max_pending
unfolding run step new create_pending_call create_checked forget_terminal open_entry index_public
    watch public_id_taken await_call claim_by_public_tool_call_id take retire remember_terminal
    retire_public settle trim find_key key_of require_profile key_text template get put remove
has_room = omega arith

claim_public-resolved_example :
    (id : String) × (entry : Entry ℕ) × (get waiting.public_index "cmm_1" ≡ some id)
    × (get waiting.entries id ≡ some entry)
    × IsOwner (some agent) entry
    × let (b', claim) = claim_by_public_tool_call_id "cmm_1" (some agent) waiting in
      (claim.context ≡ entry.context)
      × (b'.settled ≡ waiting.settled ++ map (λ w. (w, claimed entry.context)) entry.waiters)
      × ((other : String)
          → get b'.entries other ≡ (if id == other then none else get waiting.entries other))
      × ((other : String)
          → get b'.public_index other
            ≡ (if "cmm_1" == other then none else get waiting.public_index other))
claim_public-resolved_example =
    claim_public-resolved "cmm_1" (some agent) waiting (run-new-WellFormed (some 2) none events)
      claim_resolves

claim_again_example :
    let b' = (claim_by_public_tool_call_id "cmm_1" (some agent) waiting).0 in
    claim_by_public_tool_call_id "cmm_1" none b'
    ≡ (b', record { outcome = ResolveOutcome.duplicate; context = none })
claim_again_example =
    claim_again "cmm_1" (some agent) none waiting (run-new-WellFormed (some 2) none events) has_room
      claim_resolves

claim-fail_entry_example :
    let b' =
      fail_entry weather_id
        (if true then TerminalState.expired else TerminalState.cancelled)
        waiting in
    claim_by_public_tool_call_id "cmm_1" (some agent) b'
    ≡ (b', record { outcome = ResolveOutcome.stale; context = none })
claim-fail_entry_example =
    claim-fail_entry "cmm_1" weather_id true (some agent) waiting_entry waiting
      (run-new-WellFormed (some 2) none events) has_room is_indexed is_pending

claim_once_example :
    (claim_by_public_tool_call_id "cmm_1" none (
      run
        (claim_by_public_tool_call_id "cmm_1" (some agent) waiting).0
        (timer_due weather_id 120000 ∷ []))).1.outcome
    ≢ ResolveOutcome.resolved
claim_once_example =
    claim_once "cmm_1" (some agent) none waiting (timer_due weather_id 120000 ∷ [])
      (run-new-WellFormed (some 2) none events) has_room claim_resolves (tt, tt)

promises_conserved_example :
    settled_times 1 waiting.settled + waiting_times 1 waiting.entries ≡ asked_times 1 events
promises_conserved_example = promises_conserved 1 (some 2) none events

is_refused :
    (create_pending_call weather_key none none (some 8) 5 waiting).1
    ≡ err (router_error provider_protocol_error "Duplicate pending tool call")
unfolding run step new create_pending_call create_checked forget_terminal open_entry index_public
    watch public_id_taken await_call claim_by_public_tool_call_id take retire remember_terminal
    retire_public settle trim find_key key_of require_profile key_text template get put remove
is_refused = refl

create-refused_example :
    SameCalls waiting (create_pending_call weather_key none none (some 8) 5 waiting).0
create-refused_example = create-refused weather_key none none (some 8) 5 waiting _ is_refused

abbrev empty : Broker ℕ ℕ
empty = new (some 2) none

is_accepted : (create_pending_call weather_key none none (some 7) 0 empty).1 ≡ ok tt
unfolding run step new create_pending_call create_checked forget_terminal open_entry index_public
    watch public_id_taken await_call claim_by_public_tool_call_id take retire remember_terminal
    retire_public settle trim find_key key_of require_profile key_text template get put remove
is_accepted = refl

cancel_scope-key_example :
    get (cancel_scope (some "s1") none waiting).entries (key_text agent weather_key) ≡ none
cancel_scope-key_example = cancel_scope-key (some "s1") none agent weather_key waiting (omega arith)

-- a session with a bar in it is cut there, and its scope is another one
session_cut : split_scope "AGENT|chatgpt|a|b||t1" ≡ ("chatgpt", "a")
unfolding split_scope split_bar
session_cut = refl
