-- ===== src/Session.antt =====
-- dictd/daemon.c: the commands of a client and the loop that reads them.
pub mod Commands
pub mod Longest
pub mod Info
pub mod Auth
pub mod Execute
pub mod Loop
pub mod Ends
pub mod Alarm
pub mod Answered
pub mod Listing
pub mod Responses
pub mod Total
