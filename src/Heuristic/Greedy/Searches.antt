-- ===== src/Heuristic/Greedy/Searches.antt =====
-- heuristic/src/IG.cpp: `localSearchKI` keeps the jobs, and its cost does not rise.
use pbbperm.Base.{ℕ, ◌≤◌, ◌<◌, ◌≡◌, List, Perm, true, Option, none, some, slice, ◌⊎◌}
use pbbperm.Flowshop.Vectors.{Instance, int_max}
use pbbperm.Heuristic.Neh.Work.{work}
use pbbperm.Heuristic.Moves.{Fast, Floats}
use pbbperm.Heuristic.Moves.Rounds.{IsStuck}

module _ (inst : Instance) (floats : Floats) (memory : ℕ → ℕ) (some_machine : 0 < inst.nb_machines)
    (many : 3 ≤ inst.nb_job)
    (draws : (n : ℕ) (w : ℕ → floats.F) (i : ℕ)
      → i < n
      → floats.positive (w i) ≡ true
      → floats.draw n w < n)
    (base : List ℕ) (small : work inst base < int_max) where
  -- An order of the jobs, with tabu jobs for which no weight is above 0.
  abbrev Stuck : Type 0
  Stuck = IsStuck inst floats memory some_machine many draws base small

  module _ (kmax : ℕ) (rounds : 0 < kmax) (cells : ℕ) (room : kmax ≤ cells) where
    -- No neighbour, or one that keeps the jobs and costs less; the list of tabu jobs has its size.
    abbrev IsBetter : ℕ → Option (Option ((ℕ → ℕ) × ℕ) × Fast) → Type 0
    IsBetter best none = Stuck
    IsBetter best (some (none, after)) = after.tabujobs.nmax ≡ cells
    IsBetter best (some (some (tmp, c), after)) =
        (after.tabujobs.nmax ≡ cells) × Perm (slice inst.nb_job 0 tmp) base × (c < best)

    -- A permutation with all jobs, at a cost that is at most `best`.
    abbrev IsKept : ℕ → Option ((ℕ → ℕ) × ℕ × Fast) → Type 0
    IsKept best o =
        ((o ≡ none) × Stuck)
        ⊎ ((r : (ℕ → ℕ) × ℕ × Fast) × (o ≡ some r)
            × Perm (slice inst.nb_job 0 r.0) base
            × (r.1 ≤ best))
