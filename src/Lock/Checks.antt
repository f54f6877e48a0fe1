-- ===== src/Lock/Checks.antt =====
-- Examples for the lock package, at concrete inputs.
pub mod Samples
pub mod Records
pub mod Services
pub mod Turns
pub mod Levels
pub mod Watches
