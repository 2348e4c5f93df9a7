-- ===== src/Http/Chat.antt =====
-- src/http/openai-chat.ts: the Chat Completions surface.
mod Tests
pub mod Messages
pub mod RoundTrip
pub mod Tools
pub mod History
pub mod Aggregate
pub mod Handler
pub mod Admission
pub mod Plain
pub mod Stream
