-- ===== src/Observability/UsageStore/Aggregates.antt =====
-- `aggregates`: the loop over the records, and what its counters are. The mean latency is rounded
-- as `Math.round` does, halves up; `zero_cost` and `add_cost` are 0 and the addition of numbers.
use cmm_routers.Prelude.{
  ℕ, zero, suc, ◌+◌, ◌-◌, ◌*◌, ◌/◌, String, Bool, true, false, Option, none, some, List, [], ◌∷◌,
  length, if◌then◌else◌, get_or_else, ◌≡◌, refl, arith,
}
use cmm_routers.Prelude.OrderedMap.{OrderedMap}
use cmm_routers.Observability.UsageStore.{
  UsageStatus, UsageStore, UsageRecord, ActiveRequest, success, provider_error, auth_error,
  quota_error, rate_limit_error, timeout_error, cancelled,
}

pub record Totals (F : Type 0) : Type 0 where
  pub success_count : ℕ
  pub quota_events : ℕ
  pub rate_limit_events : ℕ
  pub timeout_events : ℕ
  pub cancelled_events : ℕ
  pub latency_sum : ℕ
  pub last_success_at : Option ℕ
  pub input_tokens : ℕ
  pub output_tokens : ℕ
  pub reasoning_tokens : ℕ
  pub cache_read_tokens : ℕ
  pub cost_usd : F

pub record UsageAggregates (F : Type 0) : Type 0 where
  pub total_requests : ℕ
  pub failure_count : ℕ
  pub active_requests : ℕ
  pub active_model : Option String
  pub average_latency_ms : Option ℕ
  pub totals : Totals F

abbrev pub status_beq : UsageStatus → UsageStatus → Bool
status_beq success success = true
status_beq provider_error provider_error = true
status_beq auth_error auth_error = true
status_beq quota_error quota_error = true
status_beq rate_limit_error rate_limit_error = true
status_beq timeout_error timeout_error = true
status_beq cancelled cancelled = true
status_beq _ _ = false

abbrev pub one_if : Bool → ℕ
one_if true = 1
one_if false = 0

abbrev pub first_model : OrderedMap String ActiveRequest → Option String
first_model [] = none
first_model ((id, r) ∷ active) = some r.model

-- Math.round(sum / n) for natural numbers
abbrev pub rounded_mean : ℕ → ℕ → Option ℕ
rounded_mean sum zero = none
rounded_mean sum (suc n) = some ((2 * sum + suc n) / (2 * suc n))

module _ {F : Type 0} (zero_cost : F) (add_cost : F → F → F) where
  abbrev pub no_totals : Totals F
  no_totals = record {
    success_count = 0;
    quota_events = 0;
    rate_limit_events = 0;
    timeout_events = 0;
    cancelled_events = 0;
    latency_sum = 0;
    last_success_at = none;
    input_tokens = 0;
    output_tokens = 0;
    reasoning_tokens = 0;
    cache_read_tokens = 0;
    cost_usd = zero_cost;
  }

  -- one turn of the loop
  unfoldable pub add_record : Totals F → UsageRecord F → Totals F
  add_record t r =
      let u = r.outcome.usage in
      let is = status_beq r.outcome.status in
      record {
        success_count = t.success_count + one_if (is success);
        quota_events = t.quota_events + one_if (is quota_error);
        rate_limit_events = t.rate_limit_events + one_if (is rate_limit_error);
        timeout_events = t.timeout_events + one_if (is timeout_error);
        cancelled_events = t.cancelled_events + one_if (is cancelled);
        latency_sum = t.latency_sum + r.duration_ms;
        last_success_at = if is success then some r.started_at else t.last_success_at;
        input_tokens = t.input_tokens + get_or_else u.input_tokens 0;
        output_tokens = t.output_tokens + get_or_else u.output_tokens 0;
        reasoning_tokens = t.reasoning_tokens + get_or_else u.reasoning_tokens 0;
        cache_read_tokens = t.cache_read_tokens + get_or_else u.cache_read_tokens 0;
        cost_usd = add_cost t.cost_usd (get_or_else u.cost_usd zero_cost);
      }

  unfoldable pub total : Totals F → List (UsageRecord F) → Totals F
  unfolding add_record
  total t [] = t
  total t (r ∷ rs) = total (add_record t r) rs

  unfoldable pub aggregates : UsageStore F → UsageAggregates F
  unfolding total
  aggregates s =
      let t = total no_totals s.records in
      let n = length s.records in
      record {
        total_requests = n;
        failure_count = n - t.success_count;
        active_requests = length s.active;
        active_model = first_model s.active;
        average_latency_ms = rounded_mean t.latency_sum n;
        totals = t;
      }

  -- how many records have a status
  abbrev pub count : UsageStatus → List (UsageRecord F) → ℕ
  count status [] = 0
  count status (r ∷ rs) = one_if (status_beq r.outcome.status status) + count status rs

  abbrev pub IsCountOf : (before after : Totals F) → List (UsageRecord F) → Type 0
  IsCountOf t t' rs =
      (t'.success_count ≡ t.success_count + count success rs)
      × (t'.quota_events ≡ t.quota_events + count quota_error rs)
      × (t'.rate_limit_events ≡ t.rate_limit_events + count rate_limit_error rs)
      × (t'.timeout_events ≡ t.timeout_events + count timeout_error rs)
      × (t'.cancelled_events ≡ t.cancelled_events + count cancelled rs)

  total-count : (t : Totals F) (rs : List (UsageRecord F)) → IsCountOf t (total t rs) rs
  unfolding total add_record
  total-count t [] = (omega arith, omega arith, omega arith, omega arith, omega arith)
  total-count t (r ∷ rs) =
      let below = total-count (add_record t r) rs in
      (
        omega (arith, below),
        omega (arith, below),
        omega (arith, below),
        omega (arith, below),
        omega (arith, below),
      )

  one_status :
      (status : UsageStatus)
      → one_if (status_beq status success)
          + one_if (status_beq status quota_error)
          + one_if (status_beq status rate_limit_error)
          + one_if (status_beq status timeout_error)
          + one_if (status_beq status cancelled)
          + one_if (status_beq status auth_error)
          + one_if (status_beq status provider_error)
        ≡ 1
  one_status success = refl
  one_status provider_error = refl
  one_status auth_error = refl
  one_status quota_error = refl
  one_status rate_limit_error = refl
  one_status timeout_error = refl
  one_status cancelled = refl

  count-partition :
      (rs : List (UsageRecord F))
      → count success rs
          + count quota_error rs
          + count rate_limit_error rs
          + count timeout_error rs
          + count cancelled rs
          + count auth_error rs
          + count provider_error rs
        ≡ length rs
  count-partition [] = omega arith
  count-partition (r ∷ rs) = omega (arith, count-partition rs, one_status r.outcome.status)

  -- The counters of `aggregates` are the numbers of records of each status, and the failures are
  -- exactly the quota, rate limit, timeout and cancellation events with the authentication and
  -- provider errors, which have no counter of their own.
  pub aggregates-count :
      (s : UsageStore F)
      → IsCountOf no_totals (aggregates s).totals s.records
        × ((aggregates s).failure_count
            ≡ (aggregates s).totals.quota_events
              + (aggregates s).totals.rate_limit_events
              + (aggregates s).totals.timeout_events
              + (aggregates s).totals.cancelled_events
              + count auth_error s.records
              + count provider_error s.records)
  unfolding aggregates
  aggregates-count s =
      let counts = total-count no_totals s.records in
      (counts, omega (arith, counts, count-partition s.records))
