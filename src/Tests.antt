-- ===== src/Tests.antt =====
-- Instances of the theorems that have hypotheses, on small concrete inputs.
mod Data
mod Index
mod Net
mod Daemon
mod Access
mod Heap
mod Session
mod Strategies
mod Lev
mod Virtual
mod Setup
mod Fold
mod Anagram
