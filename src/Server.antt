-- ===== src/Server.antt =====
-- cmd/server with config and security/ratelimiter: the settings of the server, the admission of its
-- connections, and its static files.
pub mod Limiter
pub mod Admission
pub mod Settings
pub mod Static
pub mod Routes
pub mod Start
pub mod Monitor
