-- ===== src/Commands.antt =====
-- cmd: the four programs, by what they do to the store.
pub mod Retention
pub mod Seed
pub mod Replay
pub mod Start
pub mod System
mod Tests
