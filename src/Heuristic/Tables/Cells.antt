-- ===== src/Heuristic/Tables/Cells.antt =====
-- heuristic/src/fastinsertremove.cpp: cells that hold the value they should, through the loops that
-- write the tables.
use pbbperm.Base.{ℕ, ◌≡◌, arith, write2}

-- The cell of the matrix `m` holds the value that `v` says.
abbrev pub Right : (ℕ → ℕ → ℕ) → (ℕ → ℕ → ℕ) → ℕ → ℕ → Type 0
Right v m k j = m k j ≡ v k j

-- What holds the right value in `m` does so in `n`.
abbrev pub Keeps : (ℕ → ℕ → ℕ) → (ℕ → ℕ → ℕ) → (ℕ → ℕ → ℕ) → Type 0
Keeps v m n = (k j : ℕ) → Right v m k j → Right v n k j

module _ (v m : ℕ → ℕ → ℕ) (l i x : ℕ) (e : x ≡ v l i) where
  pub write2-Keeps : Keeps v m (write2 m l i x)
  write2-Keeps k j h = ground arith

  pub write2-Right : Right v (write2 m l i x) l i
  write2-Right = ground arith
