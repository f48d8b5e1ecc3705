-- ===== src/Examples.antt =====
-- Small problems and explorers, at which the theorems are applied.
mod Intervals
mod Bounds
mod Search
mod Moves
mod Units
mod Heuristics
mod Johnson
mod Moving
