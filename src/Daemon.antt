-- ===== src/Daemon.antt =====
-- dictd/daemon.c: databases, searches over them, answers, commands and access lists.
pub mod Types
pub mod Databases
pub mod Search
pub mod Totals
pub mod Plan
pub mod Planned
pub mod Print
pub mod Counted
pub mod Handlers
pub mod Answers
