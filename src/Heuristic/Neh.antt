-- ===== src/Heuristic/Neh.antt =====
-- heuristic/src/fastNEH.cpp. `computeHeads`, `computeTails` and `insertJob` are the loops of
-- fastinsertremove.cpp over one array of times, `temps_job` here as there. The tables are fresh
-- memory at first, a parameter here, and so is the position that `findBestPos` does not set.
pub mod Work
pub mod Keeps
use pbbperm.Base.{ℕ, zero, suc, ◌+◌, ◌-◌, ltb, if◌then◌else◌, write}
use pbbperm.Flowshop.Vectors.{Instance, front_loop, int_max}
use pbbperm.Heuristic.Tables.{Tables, Matrix, compute_heads, compute_tails, compute_inser}
use pbbperm.Heuristic.Edits.{shift_up}
use pbbperm.Heuristic.Peak.{peak}
use pbbperm.Heuristic.Makespans.{fill}

-- `findBestPos`: `cost` and `bestpos`, the `n` positions from `i` on
unfoldable pub least_of : ℕ → ℕ → (ℕ → ℕ) → ℕ × ℕ → ℕ × ℕ
least_of zero i tmp best = best
least_of (suc n) i tmp best =
    least_of n (suc i) tmp (if ltb (tmp i) best.0 then (tmp i, i) else best)

-- `swap(&perm[0],&perm[1])`
abbrev pub swap_first : (ℕ → ℕ) → ℕ → ℕ
swap_first perm = write (write perm 0 (perm 1)) 1 (perm 0)

module _ (inst : Instance) where
  -- `evalMakespan`
  unfoldable pub eval_makespan : (ℕ → ℕ) → ℕ → ℕ
  unfolding front_loop
  eval_makespan permut len = front_loop inst len 0 permut (λ j. 0) (inst.nb_machines - 1)

  -- `computeHeads`
  unfoldable pub neh_heads : (ℕ → ℕ) → ℕ → Matrix → Matrix
  unfolding compute_heads
  neh_heads perm len h = compute_heads inst perm len h

  -- `computeTails`
  unfoldable pub neh_tails : (ℕ → ℕ) → ℕ → Matrix → Matrix
  unfolding compute_tails
  neh_tails perm len t = compute_tails inst perm len t

  -- `insertJob`
  unfoldable pub insert_job : ℕ → ℕ → Matrix → Matrix → Matrix
  unfolding compute_inser
  insert_job len job h s = compute_inser inst len job h s

  -- `findBestPos`: the array `tmp`
  unfoldable pub peaks : ℕ → Tables → ℕ → ℕ
  unfolding fill peak
  peaks len tables =
      fill (suc len) 0 (λ i. peak inst.nb_machines 0 (λ j. tables.inser j i + tables.tail j i) 0)
        (λ i. 0)

  -- `findBestPos`: `cost` and `bestpos`, which keeps its value when no cost is below INT_MAX
  unfoldable pub find_best_pos : ℕ → Tables → ℕ → ℕ × ℕ
  unfolding peaks least_of
  find_best_pos len tables bestpos = least_of (suc len) 0 (peaks len tables) (int_max, bestpos)

  -- `findBestPos` with an interval of positions, `a` to `b - 1`
  unfoldable pub find_best_pos_between : ℕ → ℕ → ℕ → Tables → ℕ → ℕ × ℕ
  unfolding peaks least_of
  find_best_pos_between len a b tables bestpos =
      least_of (b - a) a (peaks len tables) (int_max, bestpos)

  -- `insertJobInBestPosition`: the permutation and the tables
  unfoldable pub insert_job_in_best_position : (ℕ → ℕ) → ℕ → Tables → ℕ → (ℕ → ℕ) × Tables
  unfolding neh_heads neh_tails insert_job find_best_pos shift_up
  insert_job_in_best_position perm k tables memory =
      let head = neh_heads perm k tables.head in
      let tail = neh_tails perm k tables.tail in
      let inser = insert_job k (perm k) head tables.inser in
      let after : Tables = record { head = head; tail = tail; inser = inser } in
      let bestpos = (find_best_pos k after memory).1 in
      (write (shift_up (k - bestpos) k perm) bestpos (perm k), after)

  -- `runNEH`: the loop, `n` jobs from `k` on
  unfoldable pub insert_jobs : ℕ → ℕ → (ℕ → ℕ) → Tables → ℕ → (ℕ → ℕ) × Tables
  unfolding insert_job_in_best_position
  insert_jobs zero k perm tables memory = (perm, tables)
  insert_jobs (suc n) k perm tables memory =
      let (after, written) = insert_job_in_best_position perm k tables memory in
      insert_jobs n (suc k) after written memory

  -- `runNEH`: the permutation and `cost`
  unfoldable pub run_neh : (ℕ → ℕ) → Tables → ℕ → (ℕ → ℕ) × ℕ
  unfolding eval_makespan insert_jobs
  run_neh perm tables memory =
      let c1 = eval_makespan perm 2 in
      let swapped = swap_first perm in
      let c2 = eval_makespan swapped 2 in
      let first = if ltb c1 c2 then swap_first swapped else swapped in
      let after = (insert_jobs (inst.nb_job - 2) 2 first tables memory).0 in
      (after, eval_makespan after inst.nb_job)
