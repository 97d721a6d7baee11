-- ===== src/Middleware.antt =====
-- src/internal/middleware: what wraps a call: retries, interceptors, error codes, authentication.
pub mod Retry
pub mod Chain
pub mod ErrorMapper
pub mod Auth
