-- ===== src/Sim/Advance.antt =====
-- internal/sim/advance.go: what time brings, from the last update to a timestamp.
pub mod Report
pub mod Visits
pub mod Auto
pub mod Clock
pub mod Elapsed
pub mod Replay
pub mod Termination
