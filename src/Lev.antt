-- ===== src/Lev.antt =====
-- libdictd/lev.h: words at Levenshtein distance one.
pub mod Candidates
pub mod Sites
pub mod Rounds
pub mod Edits
pub mod Complete
pub mod Search
pub mod Picked
pub mod Distance
