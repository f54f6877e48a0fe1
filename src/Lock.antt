-- ===== src/Lock.antt =====
-- internal/lock: the lock service. Its files are the modules below.
pub mod Errors
pub mod Types
pub mod Lease
pub mod Queue
pub mod Notify
pub mod Reentrant
pub mod Registry
pub mod Shared
pub mod Acquire
pub mod Calls
pub mod Valid
pub mod Turns
pub mod Service
pub mod Expirer
pub mod Watch
pub mod Listing
pub mod Given
pub mod Exclusion
pub mod Handover
pub mod Retry
pub mod Levels
pub mod Progress
pub mod System
pub mod Checks
