-- ===== src/Identity.antt =====
-- src/http/identity.ts and src/security/bearer-auth.ts: which profile a bearer token stands for.
-- `digest` is the SHA-256 of node:crypto, whose values `timingSafeEqual` compares.
pub mod Label
pub mod Bearer
pub mod Profiles
pub mod Unambiguous
mod Tests
