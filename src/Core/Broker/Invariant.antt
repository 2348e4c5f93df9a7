-- ===== src/Core/Broker/Invariant.antt =====
-- What holds of the broker between two events.
use text.Mathlib.TextEquality.{eq_iff}
use cmm_routers.Prelude.{
  ℕ, ◌≤◌, String, ◌≡◌, refl, true, Option, none, some, List, arith, length, string_eq, Option-cases,
  inl, inr,
}
use cmm_routers.Prelude.OrderedMap.{
  OrderedMap, get, put, remove, has, get-put, get-remove, length-remove-le,
}
use cmm_routers.Prelude.OrderedMap.Distinct.{
  IsDistinct, find_key, get_of_find_key, find_key_none, remove-IsDistinct,
}
use cmm_routers.Prelude.OrderedMap.Eviction.{trim, length-trim-le, get-trim_none}
use cmm_routers.Core.Broker.State.{
  TerminalState, Settlement, Entry, Broker, new, settle, retire_public, remember_terminal, retire,
}

retired_open :
    {C : Type 0} (entries : OrderedMap String (Entry C))
    (terminal : OrderedMap String TerminalState) (id j : String) (state : TerminalState) (limit : ℕ)
    → (has entries j ≡ true → get terminal j ≡ none)
    → has (remove entries id) j ≡ true
    → get (trim limit (put terminal id state)) j ≡ none
retired_open entries terminal id j state limit before k = ground (
  arith,
  get-remove entries id j,
  get-put terminal id j state,
  get-trim_none limit (put terminal id state) j,
)

module _ {C R : Type 0} where
  pub record WellFormed (b : Broker C R) : Type 0 where
    pub entries_bounded : length b.entries ≤ b.max_pending
    pub entries_distinct : IsDistinct b.entries
    pub terminal_bounded : length b.terminal ≤ b.max_pending
    pub public_bounded : length b.public_terminal ≤ b.max_pending
    pub index_distinct : IsDistinct b.public_index
    -- a public id that is open names an entry, and no other public id names the same one
    pub index_live : (p id : String) → get b.public_index p ≡ some id → has b.entries id ≡ true
    pub index_injective :
        (p q id : String) → get b.public_index p ≡ some id → get b.public_index q ≡ some id → p ≡ q
    -- nothing is open and terminal at once
    pub index_open :
        (p id : String) → get b.public_index p ≡ some id → get b.public_terminal p ≡ none
    pub entries_open : (id : String) → has b.entries id ≡ true → get b.terminal id ≡ none

  pub new-WellFormed :
      (max_pending default_ttl_ms : Option ℕ) → WellFormed (new max_pending default_ttl_ms)
  unfolding new get
  new-WellFormed m t = record {
    entries_bounded = omega arith;
    entries_distinct = tt;
    terminal_bounded = omega arith;
    public_bounded = omega arith;
    index_distinct = tt;
    index_live = λ p id h. cc;
    index_injective = λ p q id h k. cc;
    index_open = λ p id h. cc;
    entries_open = λ id h. refl;
  }

  pub settle-WellFormed :
      (waiters : List ℕ) (s : Settlement C R) (b : Broker C R)
      → WellFormed b
      → WellFormed (settle waiters s b)
  unfolding settle
  settle-WellFormed waiters s b h = record {
    entries_bounded = h.entries_bounded;
    entries_distinct = h.entries_distinct;
    terminal_bounded = h.terminal_bounded;
    public_bounded = h.public_bounded;
    index_distinct = h.index_distinct;
    index_live = h.index_live;
    index_injective = h.index_injective;
    index_open = h.index_open;
    entries_open = h.entries_open;
  }

  -- the entry of `id` goes, and its public id with it
  pub retire-WellFormed :
      (id : String) (state : TerminalState) (b : Broker C R)
      → WellFormed b
      → WellFormed (retire id state b)
  unfolding retire remember_terminal retire_public
  retire-WellFormed id state b h = elim (Option-cases (find_key b.public_index id)) [
    | inl missed ↦ rw missed (record {
      entries_bounded = omega (arith, h.entries_bounded, length-remove-le b.entries id);
      entries_distinct = remove-IsDistinct b.entries id h.entries_distinct;
      terminal_bounded = length-trim-le b.max_pending _;
      public_bounded = h.public_bounded;
      index_distinct = h.index_distinct;
      index_live = λ p j k. ground (
        arith,
        get-remove b.entries id j,
        eq_iff id j,
        find_key_none b.public_index id p missed,
        h.index_live p j k,
      );
      index_injective = h.index_injective;
      index_open = h.index_open;
      entries_open =
          λ j k. retired_open b.entries b.terminal id j state b.max_pending (h.entries_open j) k;
    })
    | inr (public_id, found) ↦ rw found (record {
      entries_bounded = omega (arith, h.entries_bounded, length-remove-le b.entries id);
      entries_distinct = remove-IsDistinct b.entries id h.entries_distinct;
      terminal_bounded = length-trim-le b.max_pending _;
      public_bounded = length-trim-le b.max_pending _;
      index_distinct = remove-IsDistinct b.public_index public_id h.index_distinct;
      index_live = λ p j k. ground (
        arith,
        get-remove b.entries id j,
        get-remove b.public_index public_id p,
        eq_iff id j,
        eq_iff public_id p,
        get_of_find_key b.public_index id public_id h.index_distinct found,
        h.index_injective public_id p id,
        h.index_live p j,
      );
      index_injective = λ p q j k l. ground (
        arith,
        get-remove b.public_index public_id p,
        get-remove b.public_index public_id q,
        h.index_injective p q j,
      );
      index_open = λ p j k. ground (
        arith,
        get-remove b.public_index public_id p,
        get-put b.public_terminal public_id p state,
        get-trim_none b.max_pending (put b.public_terminal public_id state) p,
        h.index_open p j,
      );
      entries_open =
          λ j k. retired_open b.entries b.terminal id j state b.max_pending (h.entries_open j) k;
    })
  ]
