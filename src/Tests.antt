-- ===== src/Tests.antt =====
-- Test data, and the theorems at concrete inputs.
pub mod Farm
pub mod Names
pub mod Boards
pub mod Players
pub mod Sessions
pub mod Examples
