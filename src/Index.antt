-- ===== src/Index.antt =====
-- libdictd/index.c: searching the .index file.
pub mod Types
pub mod Compare
pub mod Order
pub mod Lines
pub mod Search
pub mod Found
pub mod First
pub mod Sorted
pub mod Word
pub mod Entry
pub mod Exact
pub mod Dedup
pub mod Collected
pub mod Open
pub mod Opened
pub mod Located
