-- ===== src/Anagram.antt =====
-- libdictd/index.c: anagrams, for the index of suffixes.
pub mod Swap
pub mod Reversed
