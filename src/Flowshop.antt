-- ===== src/Flowshop.antt =====
-- The permutation flow shop of bounds/src/bound_fsp_weak.cpp: processing times, the vectors `front`,
-- `back` and `remain` of a partial schedule, and the weak lower bound. Processing times are
-- non-negative, and sums of them are taken without a bound.
pub mod Vectors
pub mod Weak
pub mod Paths
pub mod Least
pub mod Lists
pub mod Feasible
pub mod Machines
pub mod Admissible
pub mod Node
pub mod Children
