-- ===== src/Providers.antt =====
-- src/providers: the adapters that turn an upstream's answers into the Router's events.
pub mod Cavoti
