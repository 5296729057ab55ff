-- ===== src/Net.antt =====
-- Text on the wire: libcommon/io.c, the output of dictd/daemon.c and the reader of dict/dict.c.
pub mod Line
pub mod Write
pub mod Text
pub mod Transfer
pub mod Dots
