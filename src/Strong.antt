-- ===== src/Strong.antt =====
-- bounds/src/bound_fsp_strong.cpp: the bound by pairs of machines, of Lageweg, Lenstra and Rinnooy
-- Kan. Tables, Schedule and Bound hold the code.
pub mod Tables
pub mod Schedule
pub mod Bound
pub mod Johnson
pub mod Pairs
pub mod Flags
pub mod Loops
pub mod Admissible
