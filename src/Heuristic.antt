-- ===== src/Heuristic.antt =====
-- heuristic/: the insertion heuristics of the flow shop. `fastinsertremove.cpp` in Tables, Tabu,
-- Edits, Makespans and Best.
pub mod Tables
pub mod Heads
pub mod Tails
pub mod Inser
pub mod Edits
pub mod Orders
pub mod Peak
pub mod Makespans
pub mod Tabu
pub mod Best
pub mod Neh
pub mod Moves
pub mod Greedy
