-- ===== src/Providers/Cavoti/Run/Accepted.antt =====
-- src/providers/cavoti/adapter.ts: what an accepted fragment of a tool call adds to the calls.
use Prim.Native.String.{String}
use cmm_routers.Prelude.{
  ℕ, true, Option, none, some, List, [], contains, string_eq, nat_eq, ◌==◌, ◌≡◌, refl, arith,
  Bool-cases, Option-cases, inl, inr, eq_of_==, sym, ◌∙◌, subst, ==_refl,
}
use cmm_routers.Prelude.OrderedMap.{OrderedMap, get, put, get-put}
use cmm_routers.Core.Json.{
  Json, null, bool, num, decimal, str, obj, arr, Fields, prop, prop?, as_filled, as_string,
}
use cmm_routers.Core.Errors.{Result-cases, ok}
use cmm_routers.Core.RouterEvent.{RouterEvent, tool_call_delta}
use cmm_routers.Http.Chat.Stream.Buffer.{HasName}
use cmm_routers.Providers.Cavoti.Fragments.{
  Known, index_of, renamed, resolved, check_declared, read_call, read_fragment,
}

-- a name that the request declares, or none yet
abbrev pub IsDeclared : List String → Option String → Type 0
IsDeclared declared none = Unit
IsDeclared declared (some name) = contains declared name ≡ true

abbrev pub IsNamed : OrderedMap ℕ Known → Type 0
IsNamed calls = (index : ℕ) (known : Known) → get calls index ≡ some known → HasName known.name

abbrev pub Keeps : OrderedMap ℕ Known → (ℕ → String) → Type 0
Keeps calls id_of =
    (index : ℕ) (known : Known) → get calls index ≡ some known → id_of index ≡ known.id

as_filled-HasName : (v : Option Json) → HasName (as_filled v)
as_filled-HasName none = tt
as_filled-HasName (some null) = tt
as_filled-HasName (some (bool b)) = tt
as_filled-HasName (some (num n)) = tt
as_filled-HasName (some (decimal d)) = tt
as_filled-HasName (some (arr xs)) = tt
as_filled-HasName (some (obj fs)) = tt
as_filled-HasName (some (str s)) = elim (Bool-cases (s == "")) [
  | inl empty ↦ rw empty tt
  | inr filled ↦ rw filled filled
]

renamed-keeps :
    (old known : Known) (name : Option String)
    → renamed old name ≡ ok known
    → HasName name
    → HasName old.name
    → (old.id ≡ known.id) × HasName known.name
renamed-keeps old known none h n o = ground (arith, h, o)
renamed-keeps old known (some new) h n o = elim (Option-cases old.name) [
  | inl unnamed ↦ ground (arith, unnamed, h, n)
  | inr (m, named) ↦ elim (Bool-cases (m == new)) [
    | inl same ↦ ground (arith, named, same, h, o)
    | inr other ↦ absurd (ground (arith, named, other, h))
  ]
]

resolved-keeps :
    (old : Option Known) (id name : Option String) (known : Known)
    → resolved old id name ≡ ok known
    → HasName name
    → ((k : Known) → old ≡ some k → HasName k.name)
    → ((k : Known) → old ≡ some k → k.id ≡ known.id) × HasName known.name
unfolding resolved
resolved-keeps none none name known h n o = cc
resolved-keeps none (some id) name known h n o = (λ k e. cc, ground (arith, h, n))
resolved-keeps (some old) none name known h n o =
    let (same, named) = renamed-keeps old known name h n (o old refl) in (λ k e. cc, named)
resolved-keeps (some old) (some id) name known h n o = elim (Bool-cases (id == old.id)) [
  | inl same_id ↦
      let (same, named) =
        renamed-keeps old known name (ground (arith, same_id, h)) n (o old refl) in
      (λ k e. cc, named)
  | inr other ↦ absurd (ground (arith, other, h))
]

check_declared-IsDeclared :
    (declared : List String) (name : Option String)
    → check_declared declared name ≡ ok tt
    → IsDeclared declared name
unfolding check_declared
check_declared-IsDeclared declared none h = tt
check_declared-IsDeclared declared (some name) h = ground (arith, h)

some_injective : {a b : Known} → some a ≡ some b → a ≡ b
some_injective h = ground (arith, h)

pub no_calls-IsNamed : IsNamed []
unfolding get
no_calls-IsNamed index known e = absurd (ground (arith, e))

pub put-IsNamed :
    (calls : OrderedMap ℕ Known) (index : ℕ) (known : Known)
    → IsNamed calls
    → HasName known.name
    → IsNamed (put calls index known)
put-IsNamed calls index known n h = λ i k e. elim (Bool-cases (index == i)) [
  | inl same ↦
      let found : some known ≡ some k = sym (get-put calls index i known ∙ rw same refl) ∙ e in
      subst (λ (o : Known). HasName o.name) (some_injective found) h
  | inr other ↦ n i k (sym (get-put calls index i known ∙ rw other refl) ∙ e)
]

pub put-Keeps :
    (calls : OrderedMap ℕ Known) (index : ℕ) (known : Known) (id_of : ℕ → String)
    → ((k : Known) → get calls index ≡ some k → k.id ≡ known.id)
    → Keeps (put calls index known) id_of
    → Keeps calls id_of × (id_of index ≡ known.id)
put-Keeps calls index known id_of same keeps =
    let here : id_of index ≡ known.id =
      keeps index known (get-put calls index index known ∙ rw (==_refl index) refl) in
    (
      λ i k e. elim (Bool-cases (index == i)) [
        | inl at ↦
            let e' = eq_of_== index i at in
            subst (λ j. id_of j ≡ k.id) e'
              (here ∙ sym (same k (subst (λ j. get calls j ≡ some k) (sym e') e)))
        | inr other ↦ keeps i k (get-put calls index i known ∙ rw other e)
      ],
      here,
    )

-- the ids that are known
abbrev pub known_id : OrderedMap ℕ Known → ℕ → String
known_id calls index = elim (get calls index) [ none ↦ "" | some known ↦ known.id ]

pub known_id-Keeps : (calls : OrderedMap ℕ Known) → Keeps calls (known_id calls)
known_id-Keeps calls index known e = rw (e, known_id) refl

module _ {F : Type 0} (declared : List String) where
  -- what an accepted fragment adds to the calls
  pub record IsAccepted (calls : OrderedMap ℕ Known) (event : RouterEvent F)
      (calls' : OrderedMap ℕ Known) : Type 0 where
    pub index : ℕ
    pub known : Known
    pub delta : Option String
    pub says : event ≡ tool_call_delta index known.id known.name delta
    pub kept : calls' ≡ put calls index known
    pub same_id : (k : Known) → get calls index ≡ some k → k.id ≡ known.id
    pub has_name : HasName known.name
    pub is_declared : IsDeclared declared known.name

  read_call-IsAccepted :
      (index : ℕ) (call : Fields) (calls calls' : OrderedMap ℕ Known) (event : RouterEvent F)
      → IsNamed calls
      → read_call declared index call calls ≡ ok (event, calls')
      → IsAccepted calls event calls'
  unfolding read_call
  read_call-IsAccepted index call calls calls' event n h =
      let name = as_filled (prop? (prop call "function") "name") in
      let id = as_filled (prop call "id") in
      elim (Result-cases (resolved (get calls index) id name)) [
        | inl (e, bad) ↦ absurd (ground (arith, bad, h))
        | inr (known, found) ↦ elim (Result-cases (check_declared declared known.name)) [
          | inl (e, bad) ↦ absurd (ground (arith, found, bad, h))
          | inr (t, passed) ↦
              let (same, named) =
                resolved-keeps (get calls index) id name known found
                  (as_filled-HasName (prop? (prop call "function") "name")) (n index) in
              record {
                index = index;
                known = known;
                delta = as_string (prop? (prop call "function") "arguments");
                says = ground (arith, found, passed, h);
                kept = ground (arith, found, passed, h);
                same_id = same;
                has_name = named;
                is_declared = check_declared-IsDeclared declared known.name passed;
              }
        ]
      ]

  pub read_fragment-IsAccepted :
      (raw : Json) (calls calls' : OrderedMap ℕ Known) (event : RouterEvent F)
      → IsNamed calls
      → read_fragment declared raw calls ≡ ok (event, calls')
      → IsAccepted calls event calls'
  unfolding read_fragment
  read_fragment-IsAccepted null calls calls' event n h = cc
  read_fragment-IsAccepted (bool b) calls calls' event n h = cc
  read_fragment-IsAccepted (num m) calls calls' event n h = cc
  read_fragment-IsAccepted (decimal d) calls calls' event n h = cc
  read_fragment-IsAccepted (str s) calls calls' event n h = cc
  read_fragment-IsAccepted (arr items) calls calls' event n h = cc
  read_fragment-IsAccepted (obj call) calls calls' event n h =
      elim (Result-cases (index_of (prop call "index"))) [
        | inl (e, bad) ↦ absurd (ground (arith, bad, h))
        | inr (index, at) ↦
            read_call-IsAccepted index call calls calls' event n (ground (arith, at, h))
      ]
