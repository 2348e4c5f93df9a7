-- ===== src/Observability/UsageStore.antt =====
-- src/observability/usage-store.ts. A time is in milliseconds, read from a clock that does not run
-- backwards; the ISO text of a time stands for the time. `F` is the type of the numbers that a cost
-- is given in.
pub mod Bounded
pub mod Aggregates
use cmm_routers.Prelude.{
  ℕ, zero, suc, ◌+◌, ◌-◌, ◌*◌, ◌/◌, String, Bool, true, false, Option, none, some, List, [], ◌∷◌,
  ◌++◌, length, drop, ltb, string_eq, nat_eq, ◌==◌, if◌then◌else◌, get_or_else,
}
use mathlib.Core.Option
use mathlib.Core.List.{reverse}
use cmm_routers.Prelude.OrderedMap.{OrderedMap, get, put, remove}
use cmm_routers.Core.RouterEvent.{TokenUsage}

pub data UsageStatus : Type 0 where
  success provider_error auth_error quota_error rate_limit_error timeout_error : UsageStatus
  cancelled : UsageStatus

pub record UsageIdentity : Type 0 where
  pub profile : String
  pub client_label : Option String

pub record ActiveRequest : Type 0 where
  pub provider : String
  pub model : String
  pub started_at : ℕ
  pub identity : Option UsageIdentity

pub record Outcome (F : Type 0) : Type 0 where
  pub status : UsageStatus
  pub usage : TokenUsage F
  pub error_code : Option String

pub record UsageRecord (F : Type 0) : Type 0 where
  pub request_id : String
  pub provider : String
  pub model : String
  pub started_at : ℕ
  pub duration_ms : ℕ
  pub profile : Option String
  pub client_label : Option String
  pub outcome : Outcome F

pub record UsageStore (F : Type 0) : Type 0 where
  pub records : List (UsageRecord F)
  pub active : OrderedMap String ActiveRequest

abbrev pub max_records : ℕ
max_records = 500

-- what is known of a request that has ended, which may never have begun
abbrev pub began : ℕ → Option ActiveRequest → ActiveRequest
began now none = record {
  provider = "unknown";
  model = "unknown";
  started_at = now;
  identity = none;
}
began now (some started) = started

module _ {F : Type 0} where
  unfoldable pub new : UsageStore F
  new = record { records = []; active = [] }

  unfoldable pub begin_request :
      String → String → String → Option UsageIdentity → ℕ → UsageStore F → UsageStore F
  begin_request request_id provider model identity now s = record s {
    active =
        put s.active request_id
          (record { provider = provider; model = model; started_at = now; identity = identity });
  }

  unfoldable pub record_of : String → Outcome F → ℕ → ActiveRequest → UsageRecord F
  record_of request_id outcome now started = record {
    request_id = request_id;
    provider = started.provider;
    model = started.model;
    started_at = started.started_at;
    duration_ms = now - started.started_at;
    profile = Option.map (λ i. i.profile) started.identity;
    client_label = Option.bind started.identity (λ i. i.client_label);
    outcome = outcome;
  }

  -- records.push(record), then the splice that keeps the newest
  unfoldable pub push_bounded : List (UsageRecord F) → UsageRecord F → List (UsageRecord F)
  push_bounded records r =
      let pushed = records ++ r ∷ [] in
      if ltb max_records (length pushed) then drop (length pushed - max_records) pushed else pushed

  unfoldable pub end_request : String → Outcome F → ℕ → UsageStore F → UsageStore F × UsageRecord F
  unfolding record_of push_bounded
  end_request request_id outcome now s =
      let r = record_of request_id outcome now (began now (get s.active request_id)) in
      (record { records = push_bounded s.records r; active = remove s.active request_id }, r)

  -- `slice(-limit)`; a limit of 0 is `slice(0)`, the whole of it
  unfoldable pub list_recent : ℕ → UsageStore F → List (UsageRecord F)
  list_recent limit s =
      if limit == 0 then reverse s.records else reverse (drop (length s.records - limit) s.records)
