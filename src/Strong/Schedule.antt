-- ===== src/Strong/Schedule.antt =====
-- bounds/src/bound_fsp_strong.cpp: the flags, the two vectors of a node with the idle times, and the
-- sort of the pairs. The sort, one loop in the code, is a loop over the places that moves a pair
-- down while the pair before it has a smaller key. `front` stands for `limite1 + 1` in the arguments.
use pbbperm.Base.{
  ℕ, zero, suc, ◌+◌, ◌-◌, Bool, false, ltb, ◌==◌, if◌then◌else◌, write, ℤ, pos, negsuc,
}
use pbbperm.Flowshop.Vectors.{Instance, push_front, push_back}
use pbbperm.Strong.Tables.{min_departures, min_arrivals}

-- `flag[jobCour] == 0`
unfoldable pub is_zero : ℤ → Bool
is_zero (pos n) = n == 0
is_zero (negsuc n) = false

-- `setFlags`: the flags `value` of the jobs at `n` cells from `j` on
unfoldable pub flag_cells : (ℕ → ℤ) → ℕ → ℕ → (ℕ → ℕ) → (ℕ → ℤ) → ℕ → ℤ
flag_cells value zero j permutation flag = flag
flag_cells value (suc n) j permutation flag =
    flag_cells value n (suc j) permutation (write flag (permutation j) (value (permutation j)))

-- The sort of the pairs: the pair at place `i` moves down while the pair before it has a smaller key.
unfoldable pub move_down : (ℕ → ℕ) → ℕ → (ℕ → ℕ) → ℕ → ℕ
move_down key zero order = order
move_down key (suc i) order =
    let moved = move_down key i (write (write order i (order (suc i))) (suc i) (order i)) in
    if ltb (key (order i)) (key (order (suc i))) then moved else order

-- The sort of the pairs: `n` places from `i` on.
unfoldable pub sort_pairs : (ℕ → ℕ) → ℕ → ℕ → (ℕ → ℕ) → ℕ → ℕ
unfolding move_down
sort_pairs key zero i order = order
sort_pairs key (suc n) i order = sort_pairs key n (suc i) (move_down key i order)

module _ (inst : Instance) where
  -- `setFlags`
  unfoldable pub set_flags : (ℕ → ℕ) → ℕ → ℕ → (ℕ → ℤ) → ℕ → ℤ
  unfolding flag_cells
  set_flags permutation front limite2 flag =
      flag_cells (λ job. pos (job + 1)) (inst.nb_job - limite2) limite2 permutation
        (flag_cells (λ job. negsuc 0) front 0 permutation
          (λ job. if ltb job inst.nb_job then pos 0 else flag job))

  -- `scheduleFront`: the idle time that a job adds, `n` machines from `m` on
  unfoldable pub idle_front : ℕ → (ℕ → ℕ) → ℕ → ℕ → ℕ → ℕ
  unfolding push_front
  idle_front job f zero m idle = idle
  idle_front job f (suc n) m idle =
      idle_front job f n (suc m) (idle + (push_front inst job f (m - 1) - f m))

  -- `scheduleFront`: `n` jobs from cell `j` on, the vector and the idle time
  unfoldable pub front_and_idle : ℕ → ℕ → (ℕ → ℕ) → (ℕ → ℕ) × ℕ → (ℕ → ℕ) × ℕ
  unfolding idle_front push_front
  front_and_idle zero j permutation (f, idle) = (f, idle)
  front_and_idle (suc n) j permutation (f, idle) =
      let job = permutation j in
      front_and_idle n (suc j) permutation
        (push_front inst job f, idle_front job f (inst.nb_machines - 1) 1 idle)

  -- `scheduleFront`
  unfoldable pub strong_front : (ℕ → ℕ) → ℕ → ℕ → (ℕ → ℕ) × ℕ
  unfolding front_and_idle min_arrivals
  strong_front permutation front idle =
      if front == 0
      then (min_arrivals inst, 0)
      else front_and_idle front 0 permutation (λ m. 0, idle)

  -- `scheduleBack`: the idle time that a job adds, the `n` machines below `n`
  unfoldable pub idle_back : ℕ → (ℕ → ℕ) → ℕ → ℕ → ℕ
  unfolding push_back
  idle_back job b zero idle = idle
  idle_back job b (suc n) idle = idle_back job b n (idle + (push_back inst job b (suc n) - b n))

  -- `scheduleBack`: the cells `low + n - 1` down to `low`
  unfoldable pub back_and_idle : ℕ → ℕ → (ℕ → ℕ) → (ℕ → ℕ) × ℕ → (ℕ → ℕ) × ℕ
  unfolding idle_back push_back
  back_and_idle zero low permutation (b, idle) = (b, idle)
  back_and_idle (suc n) low permutation (b, idle) =
      let job = permutation (low + n) in
      back_and_idle n low permutation
        (push_back inst job b, idle_back job b (inst.nb_machines - 1) idle)

  -- `scheduleBack`
  unfoldable pub strong_back : (ℕ → ℕ) → ℕ → ℕ → (ℕ → ℕ) × ℕ
  unfolding back_and_idle min_departures
  strong_back permutation limite2 idle =
      if limite2 == inst.nb_job
      then (min_departures inst, 0)
      else back_and_idle (inst.nb_job - limite2) limite2 permutation (λ j. 0, idle)
