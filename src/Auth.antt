-- ===== src/Auth.antt =====
-- internal/auth/auth.go: bearer credentials, console sessions, rate limits and the middleware.
mod Tests
pub mod State
pub mod Limits
pub mod Sessions
pub mod Checks
pub mod Gate
pub mod Handlers
