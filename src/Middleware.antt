-- ===== src/Middleware.antt =====
-- The HTTP middleware of pkg/middleware.
pub mod CircuitBreaker
pub mod RateLimit
pub mod ResponseCache
