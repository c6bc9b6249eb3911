-- ===== src/Checkins.antt =====
-- internal/checkins: what a check-in is, and which week it belongs to.
pub mod Tests
pub mod Weeks
pub mod Text
pub mod Extract
