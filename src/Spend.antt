-- ===== src/Spend.antt =====
-- src/providers/command-code/spend-guard.ts and src/providers/cavoti/spend-guard.ts: the
-- acknowledgements without which a provider that can spend money is not used.
pub mod File
pub mod CommandCode
pub mod Cavoti
pub mod Paths
mod Tests
