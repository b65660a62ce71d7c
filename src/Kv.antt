-- ===== src/Kv.antt =====
-- pkg/internal/storage/kv: the key-value stores.
pub mod Ttl
pub mod Store
pub mod Memory
pub mod Nats
pub mod Groupcache
pub mod Registry
mod Tests
