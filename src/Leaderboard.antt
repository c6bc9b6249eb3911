-- ===== src/Leaderboard.antt =====
-- internal/leaderboard/service.go: the board of check-ins and streaks.
pub mod Streak
pub mod Compute
pub mod Tests
