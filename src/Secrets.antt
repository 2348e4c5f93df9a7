-- ===== src/Secrets.antt =====
-- src/security/secret-redaction.ts, src/core/wire.ts and src/security/payg-guard.ts: secrets stay out
-- of what the Router prints, sends to a worker or falls back to.
pub mod Names
pub mod Redaction
pub mod Wire
pub mod Payg
mod Tests
