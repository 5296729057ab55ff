-- ===== src/Virtual.antt =====
-- libdictd/index.c: the search over virtual and MIME databases.
pub mod Search
pub mod Shown
pub mod Stages
pub mod Hidden
