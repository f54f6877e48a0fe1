-- ===== src/Api.antt =====
-- internal/api: the HTTP API of the service.
pub mod Types
pub mod Responses
pub mod Options
pub mod Handlers
pub mod Router
pub mod Streams
pub mod Middleware
pub mod Answers
pub mod Refusals
pub mod Routes
pub mod Pages
pub mod Invariant
pub mod Waits
pub mod Checks
