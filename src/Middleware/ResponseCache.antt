-- ===== src/Middleware/ResponseCache.antt =====
-- pkg/middleware/cache.go: the response cache.
pub mod Http
pub mod Config
pub mod Key
pub mod Capture
pub mod Handler
mod Tests
