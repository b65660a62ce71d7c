-- ===== src/Handle.antt =====
-- pkg/internal/handle: handlers of HTTP requests.
pub mod User
pub mod Search
pub mod Month
pub mod Shares
mod Tests
