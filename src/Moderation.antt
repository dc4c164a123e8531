-- ===== src/Moderation.antt =====
-- internal/moderation: the farm names that the public leaderboard may show. A string is the list of
-- its code points.
pub mod Text
pub mod Normalize
pub mod Validate
pub mod Denylist
pub mod Filter
pub mod Generate
