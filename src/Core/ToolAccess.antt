-- ===== src/Core/ToolAccess.antt =====
-- src/core/tool-access-policy.ts: which tools an authenticated request may carry.
pub mod Types
pub mod NameSet
pub mod History
pub mod Decision
pub mod Grants
pub mod Refusals
pub mod Correlation
mod Tests
