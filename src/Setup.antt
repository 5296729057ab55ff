-- ===== src/Setup.antt =====
-- dictd/dictd.c: the members of virtual and MIME databases, found by name when the server starts,
-- and the exit marks.
pub mod Members
pub mod Named
pub mod Exits
