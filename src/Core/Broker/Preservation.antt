-- ===== src/Core/Broker/Preservation.antt =====
-- Every event keeps the broker well formed.
use text.Mathlib.TextEquality.{eq_iff}
use cmm_routers.Prelude.{
  ℕ, ◌<◌, String, ◌≡◌, false, Option, none, some, List, [], ◌∷◌, ◌++◌, arith, length, string_eq,
}
use cmm_routers.Prelude.OrderedMap.{get, put, get-put, get-remove, length-put, length-remove-le}
use cmm_routers.Prelude.OrderedMap.Distinct.{put-IsDistinct}
use cmm_routers.Core.Broker.State.{Entry, Broker, new}
use cmm_routers.Core.Broker.Operations.{public_id_taken, forget_terminal, index_public}
use cmm_routers.Core.Broker.Events.{Event, create, await, step, run}
use cmm_routers.Core.Broker.Invariant.{
  WellFormed, new-WellFormed, settle-WellFormed, retire-WellFormed,
}
use cmm_routers.Core.Broker.Cases.{Keeps, step-keeps, await_cases}

abbrev pub Any : Option String → Type 0
Any public_id = Unit

module _ {C R : Type 0} where
  forget_terminal-WellFormed :
      (id : String) (b : Broker C R) → WellFormed b → WellFormed (forget_terminal id b)
  unfolding forget_terminal
  forget_terminal-WellFormed id b h = record {
    entries_bounded = h.entries_bounded;
    entries_distinct = h.entries_distinct;
    terminal_bounded = omega (arith, h.terminal_bounded, length-remove-le b.terminal id);
    public_bounded = h.public_bounded;
    index_distinct = h.index_distinct;
    index_live = h.index_live;
    index_injective = h.index_injective;
    index_open = h.index_open;
    entries_open = λ j k. ground (arith, get-remove b.terminal id j, h.entries_open j);
  }

  opened-WellFormed :
      (entry : Entry C) (public_id : Option String) (id : String) (b : Broker C R)
      → get b.entries id ≡ none
      → get b.terminal id ≡ none
      → public_id_taken b public_id ≡ false
      → length b.entries < b.max_pending
      → WellFormed b
      → WellFormed (index_public public_id id (record b { entries = put b.entries id entry }))
  unfolding index_public public_id_taken
  opened-WellFormed entry none id b absent forgotten free room h = record {
    entries_distinct = put-IsDistinct b.entries id entry h.entries_distinct;
    entries_bounded = ground (arith, length-put b.entries id entry, h.entries_bounded);
    terminal_bounded = h.terminal_bounded;
    public_bounded = h.public_bounded;
    index_distinct = h.index_distinct;
    index_live = λ p j k. ground (arith, get-put b.entries id j entry, h.index_live p j);
    index_injective = h.index_injective;
    index_open = h.index_open;
    entries_open =
        λ j k. ground (arith, get-put b.entries id j entry, eq_iff id j, h.entries_open j);
  }
  opened-WellFormed entry (some public_id) id b absent forgotten free room h = record {
    entries_distinct = put-IsDistinct b.entries id entry h.entries_distinct;
    entries_bounded = ground (arith, length-put b.entries id entry, h.entries_bounded);
    terminal_bounded = h.terminal_bounded;
    public_bounded = h.public_bounded;
    index_distinct = put-IsDistinct b.public_index public_id id h.index_distinct;
    index_live = λ p j k. ground (
      arith,
      get-put b.entries id j entry,
      get-put b.public_index public_id p id,
      h.index_live p j,
      eq_iff id j,
      eq_iff public_id p,
    );
    index_injective = λ p q j k l. ground (
      arith,
      get-put b.public_index public_id p id,
      get-put b.public_index public_id q id,
      h.index_injective p q j,
      h.index_live p j,
      h.index_live q j,
      eq_iff public_id p,
      eq_iff public_id q,
    );
    index_open = λ p j k.
        ground (arith, get-put b.public_index public_id p id, eq_iff public_id p, h.index_open p j);
    entries_open =
        λ j k. ground (arith, get-put b.entries id j entry, eq_iff id j, h.entries_open j);
  }

  wait-WellFormed :
      (id : String) (entry : Entry C) (promise : ℕ) (b : Broker C R)
      → get b.entries id ≡ some entry
      → WellFormed b
      → WellFormed (record b {
        entries = put b.entries id (record entry { waiters = entry.waiters ++ promise ∷ [] });
      })
  wait-WellFormed id entry promise b found h = record {
    entries_distinct = put-IsDistinct b.entries id _ h.entries_distinct;
    entries_bounded = ground (
      arith,
      length-put b.entries id (record entry { waiters = entry.waiters ++ promise ∷ [] }),
      h.entries_bounded,
    );
    terminal_bounded = h.terminal_bounded;
    public_bounded = h.public_bounded;
    index_distinct = h.index_distinct;
    index_live = λ p j k. ground (
      arith,
      get-put b.entries id j (record entry { waiters = entry.waiters ++ promise ∷ [] }),
      h.index_live p j,
    );
    index_injective = h.index_injective;
    index_open = h.index_open;
    entries_open = λ j k. ground (
      arith,
      get-put b.entries id j (record entry { waiters = entry.waiters ++ promise ∷ [] }),
      eq_iff id j,
      h.entries_open j,
    );
  }

  unlisten-WellFormed :
      (listeners : List (ℕ × String)) (b : Broker C R)
      → WellFormed b
      → WellFormed (record b { listeners = listeners })
  unlisten-WellFormed listeners b h = record {
    entries_bounded = h.entries_bounded;
    entries_distinct = h.entries_distinct;
    terminal_bounded = h.terminal_bounded;
    public_bounded = h.public_bounded;
    index_distinct = h.index_distinct;
    index_live = h.index_live;
    index_injective = h.index_injective;
    index_open = h.index_open;
    entries_open = h.entries_open;
  }

  WellFormed-keeps : Keeps {C = C} {R = R} Any WellFormed
  WellFormed-keeps = record {
    removed = λ id entry state s b found h.
        settle-WellFormed entry.waiters s _ (retire-WellFormed id state b h);
    forgot = forget_terminal-WellFormed;
    opened = λ entry public_id id b _ _ absent forgotten free room h.
        opened-WellFormed entry public_id id b absent forgotten free room h;
    listens = unlisten-WellFormed;
  }

  step-WellFormed : (b : Broker C R) (e : Event C R) → WellFormed b → WellFormed (step b e)
  step-WellFormed b (await key promise) h =
      await_cases WellFormed key promise b (λ e bad. h)
        (λ id fine s. settle-WellFormed (promise ∷ []) s b h)
        (λ id entry fine found. wait-WellFormed id entry promise b found h)
  step-WellFormed b (create key ttl signal context now) h =
      step-keeps Any WellFormed WellFormed-keeps b (create key ttl signal context now) tt h
  step-WellFormed b e h = step-keeps Any WellFormed WellFormed-keeps b e tt h

  pub run-WellFormed :
      (b : Broker C R) (es : List (Event C R)) → WellFormed b → WellFormed (run b es)
  unfolding run
  run-WellFormed b [] h = h
  run-WellFormed b (e ∷ es) h = run-WellFormed (step b e) es (step-WellFormed b e h)

  -- After any events on a new broker: at most `maxPending` calls are pending and as many terminal
  -- states are remembered for keys and for public ids; an open public id names a pending call, no
  -- two name the same one, and no key and no public id is open and terminal at once.
  pub run-new-WellFormed :
      (max_pending default_ttl_ms : Option ℕ) (es : List (Event C R))
      → WellFormed (run (new max_pending default_ttl_ms) es)
  run-new-WellFormed max_pending default_ttl_ms es =
      run-WellFormed (new max_pending default_ttl_ms) es (new-WellFormed max_pending default_ttl_ms)
