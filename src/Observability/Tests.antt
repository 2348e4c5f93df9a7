-- ===== src/Observability/Tests.antt =====
-- The usage of concrete requests. A cost is a natural number here.
use cmm_routers.Prelude.{ℕ, ◌≡◌, refl, false, none, List, [], ◌∷◌, string_eq, length}
use cmm_routers.Core.RouterEvent.{text_delta, completed, FinishReason}
use cmm_routers.Observability.UsageStore.{UsageStatus, Outcome, new, begin_request}
use cmm_routers.Observability.UsageStore.Bounded.{
  Event, begins, ends, run, recorded, newest, run-records,
}
use cmm_routers.Observability.Tracking.{
  Pull, finished, track_provider_stream, track_with_store, track_without_store, no_usage, verdict,
  capture_usage,
}
use cmm_routers.Observability.Tracking.Once.{
  IsEndedOnce, track_provider_stream-transparent, track_provider_stream-ended,
}

abbrev timed_out : Outcome ℕ
timed_out = record { status = UsageStatus.timeout_error; usage = no_usage; error_code = none }

abbrev requests : List (Event ℕ)
requests = begins "r1" "claude" "claude/opus" none 10 ∷ ends "r1" timed_out 25 ∷ []

run-records_example : (run requests new).records ≡ newest (recorded requests new)
run-records_example = run-records requests

abbrev pulls : List (Pull ℕ)
pulls =
    record { event = text_delta "hi"; aborted = false; now = 20 }
    ∷ record { event = completed FinishReason.stop; aborted = false; now = 30 }
    ∷ record { event = text_delta "late"; aborted = false; now = 40 }
    ∷ []

-- nothing after the terminal event is yielded
stops_there :
    length (track_provider_stream "r1" "claude" "claude/opus" none 10 50 new pulls finished).0 ≡ 2
unfolding track_provider_stream track_with_store verdict capture_usage
stops_there = refl

track_provider_stream-transparent_example :
    ((track_provider_stream "r1" "claude" "claude/opus" none 10 50 new pulls finished).0
      ≡ (track_without_store [] no_usage pulls finished).0)
    × ((track_provider_stream "r1" "claude" "claude/opus" none 10 50 new pulls finished).2
        ≡ (track_without_store [] no_usage pulls finished).1)
track_provider_stream-transparent_example =
    track_provider_stream-transparent "r1" "claude" "claude/opus" none 10 50 new pulls finished

track_provider_stream-ended_example :
    IsEndedOnce "r1"
      (begin_request "r1" "claude" "claude/opus" none 10 new)
      (track_provider_stream "r1" "claude" "claude/opus" none 10 50 new pulls finished).1
      (track_provider_stream "r1" "claude" "claude/opus" none 10 50 new pulls finished).2
track_provider_stream-ended_example =
    track_provider_stream-ended "r1" "claude" "claude/opus" none 10 50 new pulls finished
