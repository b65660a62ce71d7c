-- ===== src/Files.antt =====
-- The file service: pkg/internal/service/files*.go and file_helper.go, over an object store.
pub mod Store
pub mod Operations
pub mod Paths
pub mod Folders
pub mod Versions
pub mod Catalog
pub mod Transfer
mod Tests
