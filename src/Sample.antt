-- ===== src/Sample.antt =====
-- Concrete stores and codecs, at which the theorems about the parameters are applied.
pub mod Objects
pub mod Wire
pub mod Items
pub mod Entries
pub mod Searches
pub mod Files
pub mod Rows
pub mod Shares
