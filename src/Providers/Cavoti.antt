-- ===== src/Providers/Cavoti.antt =====
-- src/providers/cavoti: the pinned pay-as-you-go route.
pub mod Fragments
pub mod Frames
pub mod Run
mod Tests
