-- ===== src/Game.antt =====
-- internal/game: the sessions of a server, and the saves that they hold open.
pub mod Actors
pub mod Commands
pub mod Manager
pub mod Calls
pub mod Departures
pub mod Reconcile
pub mod Histories
