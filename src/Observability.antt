-- ===== src/Observability.antt =====
-- src/observability and src/http/usage-tracking.ts: what the Router records of the requests that it
-- serves.
pub mod UsageStore
pub mod Tracking
mod Tests
