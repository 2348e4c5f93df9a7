-- ===== src/Http.antt =====
-- src/http: the surfaces that the Router offers to its clients.
pub mod Reply
pub mod Admit
pub mod Chat
pub mod Anthropic
pub mod Responses
pub mod Published
pub mod Server
mod Tests
