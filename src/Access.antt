-- ===== src/Access.antt =====
-- dictd/daemon.c: the access lists of the daemon and of its databases.
pub mod Checks
pub mod Lists
pub mod Laws
pub mod Auth
