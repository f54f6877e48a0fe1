-- ===== src/Client.antt =====
-- internal/client: the Go client of the HTTP API.
pub mod Types
pub mod Requests
pub mod Calls
pub mod Renewer
pub mod Watching
pub mod Checks
