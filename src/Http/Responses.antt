-- ===== src/Http/Responses.antt =====
-- src/http/openai-responses.ts: the Responses surface.
pub mod Input
pub mod Tools
pub mod Hidden
pub mod Handler
pub mod Admission
pub mod Plain
pub mod Stream
mod Tests
