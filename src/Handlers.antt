-- ===== src/Handlers.antt =====
-- internal/handlers: the HTTP API.
pub mod Api
pub mod Configs
pub mod Backends
pub mod Checks
pub mod Providers
pub mod Site
pub mod Status
pub mod RateLimiter
pub mod Routes
pub mod Login
pub mod Users
pub mod AuditLogs
pub mod History
pub mod Logout
