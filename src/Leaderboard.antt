-- ===== src/Leaderboard.antt =====
-- internal/leaderboard: the ranking of every farm by its lifetime earnings.
pub mod Ranking
pub mod Boards
pub mod Engine
