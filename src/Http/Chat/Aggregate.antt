-- ===== src/Http/Chat/Aggregate.antt =====
-- src/http/openai-chat.ts: `aggregateEvents`, the reply of a request that does not stream. The
-- numbers of a cost are of the type `F`.
use Prim.Native.String
use Prim.Native.String.{String}
use cmm_routers.Prelude.{
  ℕ, ◌+◌, Option, none, some, List, [], ◌∷◌, leb, string_eq, nat_eq, ◌==◌, get_or_else,
  if◌then◌else◌, map,
}
use cmm_routers.Prelude.OrderedMap.{OrderedMap, get, put}
use cmm_routers.Core.RouterEvent.{
  RouterEvent, text_delta, tool_call_delta, usage, completed, error, FinishReason, stop, Thrown,
}
use cmm_routers.Core.Model.{RouterToolCall}

-- a tool call as its deltas have built it so far
pub record PendingCall : Type 0 where
  pub index : ℕ
  pub id : String
  pub name : String
  pub arguments : String

pub record Aggregation : Type 0 where
  pub content : String
  pub tool_calls : OrderedMap String PendingCall
  pub finish_reason : FinishReason
  pub input_tokens : Option ℕ
  pub output_tokens : Option ℕ

pub record CompletionUsage : Type 0 where
  pub prompt_tokens : ℕ
  pub completion_tokens : ℕ
  pub total_tokens : ℕ

pub record AggregatedCompletion : Type 0 where
  pub content : String
  pub tool_calls : List RouterToolCall
  pub finish_reason : FinishReason
  pub usage : Option CompletionUsage

pub data Aggregated (A : Type 0) : Type 0 where
  failed : Thrown → Aggregated A
  done : A → Aggregated A

-- `if (event.name) existing.name = event.name`
abbrev pub renamed : Option String → String → String
renamed none old = old
renamed (some name) old = if name == "" then old else name

-- `if (event.argumentsDelta) existing.arguments += event.argumentsDelta`
abbrev pub extended : Option String → String → String
extended none old = old
extended (some delta) old = if delta == "" then old else String.◌++◌ old delta

abbrev pub or_old : Option ℕ → Option ℕ → Option ℕ
or_old none old = old
or_old (some n) old = some n

unfoldable pub initial : Aggregation
initial = record {
  content = "";
  tool_calls = [];
  finish_reason = stop;
  input_tokens = none;
  output_tokens = none;
}

-- the call that a delta adds to: the one with its id, or a new one
abbrev pub existing_call : Option PendingCall → ℕ → String → Option String → PendingCall
existing_call (some call) index id name = call
existing_call none index id name = record {
  index = index;
  id = id;
  name = get_or_else name "";
  arguments = "";
}

abbrev pub extended_call : ℕ → (name delta : Option String) → PendingCall → PendingCall
extended_call index name delta existing = record {
  index = index;
  id = existing.id;
  name = renamed name existing.name;
  arguments = extended delta existing.arguments;
}

-- the stable sort by `index`
unfoldable pub insert_call : PendingCall → List PendingCall → List PendingCall
insert_call c [] = c ∷ []
insert_call c (d ∷ calls) =
    let rest = insert_call c calls in if leb c.index d.index then c ∷ d ∷ calls else d ∷ rest

unfoldable pub sort_calls : List PendingCall → List PendingCall
unfolding insert_call
sort_calls [] = []
sort_calls (c ∷ calls) = insert_call c (sort_calls calls)

-- `[...m.values()]`
abbrev pub values {ℓ κ} : {K : Type ℓ} {V : Type κ} → OrderedMap K V → List V
values [] = []
values ((k, v) ∷ m) = v ∷ values m

abbrev pub call_of : PendingCall → RouterToolCall
call_of c = record { id = c.id; name = c.name; arguments = c.arguments }

abbrev pub usage_of : Option ℕ → Option ℕ → Option CompletionUsage
usage_of none none = none
usage_of (some input) none =
    some (record { prompt_tokens = input; completion_tokens = 0; total_tokens = input + 0 })
usage_of none (some output) =
    some (record { prompt_tokens = 0; completion_tokens = output; total_tokens = 0 + output })
usage_of (some input) (some output) =
    some
      (record { prompt_tokens = input; completion_tokens = output; total_tokens = input + output })

unfoldable pub completion_of : Aggregation → AggregatedCompletion
unfolding sort_calls
completion_of a = record {
  content = a.content;
  tool_calls = map call_of (sort_calls (values a.tool_calls));
  finish_reason = a.finish_reason;
  usage = usage_of a.input_tokens a.output_tokens;
}

module _ {F : Type 0} where
  -- one round of the loop, for an event that is no error
  unfoldable pub collect : RouterEvent F → Aggregation → Aggregation
  collect (text_delta text) a = record a { content = String.◌++◌ a.content text }
  collect (tool_call_delta index id name delta) a =
      let existing = existing_call (get a.tool_calls id) index id name in
      record a { tool_calls = put a.tool_calls id (extended_call index name delta existing) }
  collect (usage u) a = record a {
    input_tokens = or_old u.input_tokens a.input_tokens;
    output_tokens = or_old u.output_tokens a.output_tokens;
  }
  collect (completed reason) a = record a { finish_reason = reason }
  collect (error e) a = a

  unfoldable pub aggregate_from :
      Aggregation → List (RouterEvent F) → Aggregated AggregatedCompletion
  unfolding collect completion_of
  aggregate_from a [] = done (completion_of a)
  aggregate_from a (error e ∷ events) = failed e
  aggregate_from a (text_delta text ∷ events) = aggregate_from (collect (text_delta text) a) events
  aggregate_from a (tool_call_delta index id name delta ∷ events) =
      aggregate_from (collect (tool_call_delta index id name delta) a) events
  aggregate_from a (usage u ∷ events) = aggregate_from (collect (usage u) a) events
  aggregate_from a (completed reason ∷ events) =
      aggregate_from (collect (completed reason) a) events

  unfoldable pub aggregate_events : List (RouterEvent F) → Aggregated AggregatedCompletion
  unfolding aggregate_from initial
  aggregate_events events = aggregate_from initial events
