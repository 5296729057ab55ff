-- ===== src/Strategies.antt =====
-- libdictd/strategy.c and dict_disable_strat of dictd/dictd.c: the search strategies of the server
-- and of a database.
pub mod Table
pub mod Disable
pub mod Numbers
pub mod Lookup
pub mod Disabled
pub mod Removed
