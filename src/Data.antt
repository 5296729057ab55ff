-- ===== src/Data.antt =====
-- libdictd/data.c: reading a definition out of a .dict or .dict.dz file.
pub mod Types
pub mod Read
pub mod Cache
pub mod Extract
pub mod Definition
