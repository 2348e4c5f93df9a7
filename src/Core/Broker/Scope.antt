-- ===== src/Core/Broker/Scope.antt =====
-- What `cancelScope` cancels.
use Prim.Native.Char.{code}
use Prim.Native.String
use text.Mathlib.TextLemmas.{nil-append, cons-append}
use text.Mathlib.TextEquality.{eq_iff}
use cmm_routers.Prelude.{
  String, ◌≡◌, ◌≢◌, refl, true, Option, none, List, [], ◌∷◌, arith, string_eq, nat_eq, ◌==◌,
  if◌then◌else◌, inl, map,
}
use cmm_routers.Prelude.OrderedMap.{OrderedMap, get, remove, get-remove}
use cmm_routers.Core.Profile.{RouterProfile}
use cmm_routers.Core.Model.{ProviderId}
use cmm_routers.Core.Broker.Key.{BrokerKey, in_scope}
use cmm_routers.Core.Broker.State.{
  TerminalState, Broker, settle, retire, fail_entry, retire_public, remember_terminal,
}
use cmm_routers.Core.Broker.Operations.{cancel_ids, cancel_scope}
use mathlib.Core.Option
use cmm_routers.Prelude.{contains, ◌&&◌, ◌⊎◌}
use cmm_routers.Core.Model.{provider_text, chatgpt, claude, google, command_code, cavoti}
use cmm_routers.Core.Errors.{template}
use cmm_routers.Core.Profile.{chat, agent}
use cmm_routers.Core.Broker.Key.{split_bar, split_scope, key_text, profile_text, admits}

-- a text without the separator of the parts of a key
abbrev pub HasNoBar : String → Type 0
HasNoBar String.[] = Unit
HasNoBar (String.◌∷◌ c s) = (code c ≢ b'|') × HasNoBar s

split_bar-append :
    (a rest : String)
    → HasNoBar a
    → split_bar (String.◌++◌ a (String.◌++◌ "|" rest)) ≡ a ∷ split_bar rest
unfolding split_bar
split_bar-append String.[] rest h = rw (nil-append, cons-append, nil-append) refl
split_bar-append (String.◌∷◌ c s) rest h =
    rw cons-append (ground (arith, split_bar-append s rest h.1, h.0))

profile_text-HasNoBar : (p : RouterProfile) → HasNoBar (profile_text p)
profile_text-HasNoBar chat = omega arith
profile_text-HasNoBar agent = omega arith

provider_text-HasNoBar : (p : ProviderId) → HasNoBar (provider_text p)
provider_text-HasNoBar chatgpt = omega arith
provider_text-HasNoBar claude = omega arith
provider_text-HasNoBar google = omega arith
provider_text-HasNoBar command_code = omega arith
provider_text-HasNoBar cavoti = omega arith

-- The scope that is read back from the text of a key is its provider and its session, if the
-- session has no bar in it.
pub split_scope-key_text :
    (profile : RouterProfile) (key : BrokerKey)
    → HasNoBar key.session_id
    → split_scope (key_text profile key) ≡ (provider_text key.provider, key.session_id)
unfolding split_scope key_text template
split_scope-key_text profile key h =
    rw
      (
        split_bar-append (profile_text profile) _ (profile_text-HasNoBar profile),
        split_bar-append (provider_text key.provider) _ (provider_text-HasNoBar key.provider),
        split_bar-append key.session_id _ h,
      )
      refl

contains-keys :
    {V : Type 0} (m : OrderedMap String V) (j : String)
    → (get m j ≡ none) ⊎ (contains (map (λ kv. kv.0) m) j ≡ true)
unfolding get
contains-keys [] j = inl refl
contains-keys ((i, v) ∷ m) j = ground (arith, contains-keys m j)

module _ {C R : Type 0} where
  entries-retire :
      (id : String) (state : TerminalState) (b : Broker C R)
      → (retire id state b).entries ≡ remove b.entries id
  unfolding retire remember_terminal retire_public
  entries-retire id state b = ground arith

  entries-fail_entry :
      (id j : String) (state : TerminalState) (b : Broker C R)
      → get (fail_entry id state b).entries j ≡ (if id == j then none else get b.entries j)
  unfolding fail_entry settle
  entries-fail_entry id j state b =
      ground (arith, entries-retire id state b, get-remove b.entries id j, eq_iff id j)

  entries-cancel_ids :
      (session : Option String) (provider : Option ProviderId) (ids : List String) (j : String)
      (b : Broker C R)
      → get (cancel_ids session provider ids b).entries j
        ≡ (if in_scope session provider j && contains ids j then none else get b.entries j)
  unfolding cancel_ids
  entries-cancel_ids session provider [] j b = ground arith
  entries-cancel_ids session provider (id ∷ ids) j b = ground (
    arith,
    entries-cancel_ids session provider ids j b,
    entries-cancel_ids session provider ids j (fail_entry id TerminalState.cancelled b),
    entries-fail_entry id j TerminalState.cancelled b,
    eq_iff id j,
  )

  -- `cancelScope` takes away exactly the pending calls whose provider and session match its filter,
  -- and leaves every other one as it was, for sessions with no bar in them.
  pub cancel_scope-key :
      (session : Option String) (provider : Option ProviderId) (profile : RouterProfile)
      (key : BrokerKey) (b : Broker C R)
      → HasNoBar key.session_id
      → get (cancel_scope session provider b).entries (key_text profile key) ≡ (
          if admits (Option.map provider_text provider) (provider_text key.provider)
            && admits session key.session_id
          then none
          else get b.entries (key_text profile key))
  unfolding cancel_scope in_scope
  cancel_scope-key session provider profile key b h = ground (
    arith,
    split_scope-key_text profile key h,
    entries-cancel_ids session provider (map (λ kv. kv.0) b.entries) (key_text profile key) b,
    contains-keys b.entries (key_text profile key),
  )
