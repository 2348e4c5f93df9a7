-- ===== src/Core/Broker/Promises.antt =====
-- Every promise that `awaitCall` returns is settled at most once, and none is dropped: at each
-- moment it is either settled or waits at a pending entry.
use native.Mathlib.Nat.{zero-add, add-zero}
use cmm_routers.Prelude.{
  ℕ, ◌+◌, String, ◌≡◌, ap, Option, none, some, List, [], ◌∷◌, ◌++◌, arith, string_eq, nat_eq, ◌==◌,
  if◌then◌else◌,
}
use cmm_routers.Prelude.OrderedMap.{get, put, remove}
use cmm_routers.Prelude.OrderedMap.Distinct.{put-IsDistinct, IsDistinct, remove-IsDistinct}
use cmm_routers.Core.Errors.{ok, err}
use cmm_routers.Core.Broker.Key.{BrokerKey, key_of}
use cmm_routers.Core.Broker.State.{
  TerminalState, Settlement, Entry, Broker, new, settle, retire, retire_public, remember_terminal,
}
use cmm_routers.Core.Broker.Operations.{forget_terminal, index_public}
use cmm_routers.Core.Broker.Events.{Event, create, await, step, run}
use cmm_routers.Core.Broker.Cases.{Keeps, step-keeps, await_cases}
use cmm_routers.Core.Broker.Waiting.{
  occurrences, occurrences-append, settled_times, settled_times-append, waiting_times,
  waiting_times-remove, waiting_times-put_new, waiting_times-put_old,
}
use cmm_routers.Core.Broker.Preservation.{Any}

-- how often the events ask for the promise with a key that does not throw
abbrev pub asked_once : {C R : Type 0} → ℕ → Event C R → ℕ
asked_once w (await key promise) = elim (key_of key) [
  | err e ↦ 0
  | ok id ↦ if promise == w then 1 else 0
]
asked_once w _ = 0

abbrev pub asked_times : {C R : Type 0} → ℕ → List (Event C R) → ℕ
asked_times w [] = 0
asked_times w (e ∷ es) = asked_once w e + asked_times w es

module _ {C R : Type 0} (w : ℕ) where
  -- what is settled and what waits, together
  abbrev pub held : Broker C R → ℕ
  held b = settled_times w b.settled + waiting_times w b.entries

  record Holds (n : ℕ) (b : Broker C R) : Type 0 where
    distinct : IsDistinct b.entries
    total : held b ≡ n

  settled-retire :
      (id : String) (state : TerminalState) (b : Broker C R)
      → (retire id state b).settled ≡ b.settled
  unfolding retire remember_terminal retire_public
  settled-retire id state b = ground arith

  entries-retire :
      (id : String) (state : TerminalState) (b : Broker C R)
      → (retire id state b).entries ≡ remove b.entries id
  unfolding retire remember_terminal retire_public
  entries-retire id state b = ground arith

  removed-Holds :
      (n : ℕ) (id : String) (entry : Entry C) (state : TerminalState) (s : Settlement C R)
      (b : Broker C R)
      → get b.entries id ≡ some entry
      → Holds n b
      → Holds n (settle entry.waiters s (retire id state b))
  unfolding settle
  removed-Holds n id entry state s b found h = record {
    distinct = rw (entries-retire id state b) (remove-IsDistinct b.entries id h.distinct);
    total =
        rw
          (
            entries-retire id state b,
            settled-retire id state b,
            settled_times-append w b.settled entry.waiters s,
          )
          (omega (arith, h.total, waiting_times-remove w b.entries id entry h.distinct found));
  }

  opened-Holds :
      (n : ℕ) (entry : Entry C) (public_id : Option String) (id : String) (b : Broker C R)
      → entry.waiters ≡ []
      → get b.entries id ≡ none
      → Holds n b
      → Holds n (index_public public_id id (record b { entries = put b.entries id entry }))
  unfolding index_public
  opened-Holds n entry none id b idle absent h = record {
    distinct = put-IsDistinct b.entries id entry h.distinct;
    total = omega (
      arith,
      h.total,
      waiting_times-put_new w b.entries id entry absent,
      ap (occurrences w) idle,
    );
  }
  opened-Holds n entry (some p) id b idle absent h = record {
    distinct = put-IsDistinct b.entries id entry h.distinct;
    total = omega (
      arith,
      h.total,
      waiting_times-put_new w b.entries id entry absent,
      ap (occurrences w) idle,
    );
  }

  Holds-keeps : (n : ℕ) → Keeps Any (Holds n)
  unfolding forget_terminal
  Holds-keeps n = record {
    removed = removed-Holds n;
    forgot = λ id b h. record { distinct = h.distinct; total = h.total };
    opened = λ entry public_id id b _ idle absent _ _ _ h.
        opened-Holds n entry public_id id b idle absent h;
    listens = λ ls b h. record { distinct = h.distinct; total = h.total };
  }

  wait-total :
      (n : ℕ) (id : String) (entry : Entry C) (promise : ℕ) (b : Broker C R)
      → get b.entries id ≡ some entry
      → held b ≡ n
      → let b' = record b {
        entries = put b.entries id (record entry { waiters = entry.waiters ++ promise ∷ [] });
      } in
        held b' ≡ (if promise == w then 1 else 0) + n
  wait-total n id entry promise b found h = ground (
    arith,
    waiting_times-put_old w b.entries id entry
        (record entry { waiters = entry.waiters ++ promise ∷ [] }) found,
    occurrences-append w entry.waiters (promise ∷ []),
  )

  await-Holds :
      (n : ℕ) (key : BrokerKey) (promise : ℕ) (b : Broker C R)
      → Holds n b
      → Holds (asked_once {C = C} {R = R} w (await key promise) + n) (step b (await key promise))
  await-Holds n key promise b h =
      await_cases (Holds (asked_once {C = C} {R = R} w (await key promise) + n)) key promise b
        (λ e bad.
          rw (bad, asked_once) (record { distinct = h.distinct; total = omega (arith, h.total) }))
        (λ id fine s.
          rw (fine, asked_once)
            (unfold settle in
              record {
                distinct = h.distinct;
                total = ground (arith, h.total, settled_times-append w b.settled (promise ∷ []) s);
              }))
        (λ id entry fine found.
          rw (fine, asked_once)
            (record {
              distinct = put-IsDistinct b.entries id _ h.distinct;
              total = wait-total n id entry promise b found h.total;
            }))

  step-Holds :
      (n : ℕ) (b : Broker C R) (e : Event C R) → Holds n b → Holds (asked_once w e + n) (step b e)
  step-Holds n b (await key promise) h = await-Holds n key promise b h
  step-Holds n b (create key ttl signal context now) h =
      rw zero-add
        (step-keeps Any (Holds n) (Holds-keeps n) b (create key ttl signal context now) tt h)
  step-Holds n b e h = rw zero-add (step-keeps Any (Holds n) (Holds-keeps n) b e tt h)

  run-Holds :
      (n : ℕ) (b : Broker C R) (es : List (Event C R))
      → Holds n b
      → Holds (n + asked_times w es) (run b es)
  unfolding run
  run-Holds n b [] h = rw add-zero h
  run-Holds n b (e ∷ es) h =
      let r = run-Holds (asked_once w e + n) (step b e) es (step-Holds n b e h) in
      record { distinct = r.distinct; total = omega (arith, r.total) }

  -- After any events on a new broker, a promise has been settled and waits, taken together, as
  -- often as `awaitCall` has returned it: none is dropped, and none is settled twice.
  pub promises_conserved :
      (max_pending default_ttl_ms : Option ℕ) (es : List (Event C R))
      → let b = run (new max_pending default_ttl_ms) es in
        settled_times w b.settled + waiting_times w b.entries ≡ asked_times w es
  unfolding new
  promises_conserved max_pending default_ttl_ms es = omega (
    arith,
    (run-Holds 0 (new max_pending default_ttl_ms) es
        (record { distinct = tt; total = omega arith })).total,
  )
