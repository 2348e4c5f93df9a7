-- ===== src/Http/Anthropic.antt =====
-- src/http/anthropic-messages.ts: the Anthropic Messages surface.
pub mod Errors
pub mod Blocks
pub mod Request
pub mod Handler
pub mod Admission
pub mod Plain
pub mod Stream
mod Tests
