-- ===== src/Share.antt =====
-- Shares: pkg/internal/service/shares.go, pkg/internal/model/share.go and pkg/internal/types/shares.go.
pub mod Record
pub mod Env
pub mod Cache
pub mod Service
pub mod Coherence
pub mod Loading
pub mod Writing
pub mod Permissions
pub mod Lifecycle
pub mod Passwords
pub mod Access
pub mod Expiry
mod Tests
