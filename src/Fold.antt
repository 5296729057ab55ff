-- ===== src/Fold.antt =====
-- libcommon/str.c: the folding of words before they are compared.
pub mod Chars
pub mod Utf8
