-- ===== src/Flowshop/Vectors.antt =====
-- bounds/src/bound_fsp_weak.cpp: the vectors of a partial schedule. `limit1` is at least -1, and
-- `front` below stands for `limit1 + 1`, the number of jobs at the front.
use pbbperm.Base.{ℕ, zero, suc, ◌+◌, ◌-◌, max, List, [], ◌∷◌, ltb, ◌==◌, if◌then◌else◌}

-- `tempsJob[machine][job]`, with the sizes of the instance.
pub record Instance : Type 0 where
  pub nb_job : ℕ
  pub nb_machines : ℕ
  pub temps_job : ℕ → ℕ → ℕ

-- INT_MAX
abbrev pub int_max : ℕ
int_max = 2147483647

module _ (inst : Instance) where
  -- One job after the vector `f`: the loop over the machines of `scheduleFront` and of
  -- `evalSolution`. Machine `j` reads its own old entry and the new entry of machine `j - 1`.
  unfoldable pub push_front : ℕ → (ℕ → ℕ) → ℕ → ℕ
  push_front job f zero = f 0 + inst.temps_job 0 job
  push_front job f (suc j) = max (push_front job f j) (f (suc j)) + inst.temps_job (suc j) job

  -- The loop of `scheduleBack` over the machines, from the last one down: the entry of the machine
  -- that lies `gap` before the last one.
  unfoldable pub push_back_gap : ℕ → (ℕ → ℕ) → ℕ → ℕ
  push_back_gap job b zero = b (inst.nb_machines - 1) + inst.temps_job (inst.nb_machines - 1) job
  push_back_gap job b (suc gap) =
      let j = inst.nb_machines - 1 - suc gap in
      max (b j) (push_back_gap job b gap) + inst.temps_job j job

  unfoldable pub push_back : ℕ → (ℕ → ℕ) → ℕ → ℕ
  unfolding push_back_gap
  push_back job b j = push_back_gap job b (inst.nb_machines - 1 - j)

  -- `n` rounds of the loop over the jobs, the first at cell `i`.
  unfoldable pub front_loop : ℕ → ℕ → (ℕ → ℕ) → (ℕ → ℕ) → ℕ → ℕ
  front_loop zero i permut f = f
  front_loop (suc n) i permut f = front_loop n (suc i) permut (push_front (permut i) f)

  -- The loop of `scheduleBack` over the cells `low + n - 1` down to `low`.
  unfoldable pub back_loop : ℕ → ℕ → (ℕ → ℕ) → (ℕ → ℕ) → ℕ → ℕ
  back_loop zero low permut b = b
  back_loop (suc n) low permut b = back_loop n low permut (push_back (permut (low + n)) b)

  -- The run-in time of a job: `tmp[k]` of the second half of `fillMinTimeArrDep`.
  unfoldable pub run_in : ℕ → ℕ → ℕ
  run_in job zero = inst.temps_job 0 job
  run_in job (suc k) = run_in job k + inst.temps_job (suc k) job

  -- The run-out time of a job from the machine that lies `gap` before the last one: `tmp[k]` of the
  -- first half.
  unfoldable pub run_out_gap : ℕ → ℕ → ℕ
  run_out_gap job zero = inst.temps_job (inst.nb_machines - 1) job
  run_out_gap job (suc gap) =
      run_out_gap job gap + inst.temps_job (inst.nb_machines - 1 - suc gap) job

  unfoldable pub run_out : ℕ → ℕ → ℕ
  unfolding run_out_gap
  run_out job k = run_out_gap job (inst.nb_machines - 1 - k)

  -- One round of the first loop over the jobs: every machine but the last.
  unfoldable pub dep_round : ℕ → (ℕ → ℕ) → ℕ → ℕ
  dep_round job d k =
      if ltb (suc k) inst.nb_machines
      then (if ltb (run_out job (suc k)) (d k) then run_out job (suc k) else d k)
      else d k

  unfoldable pub dep_loop : ℕ → ℕ → (ℕ → ℕ) → ℕ → ℕ
  dep_loop zero job d = d
  dep_loop (suc n) job d = dep_loop n (suc job) (dep_round job d)

  -- `minTempsDep`
  unfoldable pub min_temps_dep : ℕ → ℕ
  unfolding dep_loop dep_round
  min_temps_dep = dep_loop inst.nb_job 0 (λ k. if suc k == inst.nb_machines then 0 else int_max)

  -- One round of the second loop over the jobs: every machine but the first.
  unfoldable pub arr_round : ℕ → (ℕ → ℕ) → ℕ → ℕ
  arr_round job a zero = a 0
  arr_round job a (suc k) = if ltb (run_in job k) (a (suc k)) then run_in job k else a (suc k)

  unfoldable pub arr_loop : ℕ → ℕ → (ℕ → ℕ) → ℕ → ℕ
  arr_loop zero job a = a
  arr_loop (suc n) job a = arr_loop n (suc job) (arr_round job a)

  -- `minTempsArr`
  unfoldable pub min_temps_arr : ℕ → ℕ
  unfolding arr_loop arr_round
  min_temps_arr = arr_loop inst.nb_job 0 (λ k. if k == 0 then 0 else int_max)

  -- `scheduleFront`
  unfoldable pub schedule_front : (ℕ → ℕ) → ℕ → ℕ → ℕ
  unfolding front_loop min_temps_arr
  schedule_front permut front =
      if front == 0 then min_temps_arr else front_loop front 0 permut (λ j. 0)

  -- `scheduleBack`
  unfoldable pub schedule_back : (ℕ → ℕ) → ℕ → ℕ → ℕ
  unfolding back_loop min_temps_dep
  schedule_back permut limit2 =
      if limit2 == inst.nb_job
      then min_temps_dep
      else back_loop (inst.nb_job - limit2) limit2 permut (λ j. 0)

  -- The loop of `sumUnscheduled`: `n` cells from `k` on.
  unfoldable pub remain_loop : ℕ → ℕ → (ℕ → ℕ) → (ℕ → ℕ) → ℕ → ℕ
  remain_loop zero k permut r = r
  remain_loop (suc n) k permut r =
      remain_loop n (suc k) permut (λ j. r j + inst.temps_job j (permut k))

  -- `sumUnscheduled`
  unfoldable pub sum_unscheduled : (ℕ → ℕ) → ℕ → ℕ → ℕ → ℕ
  unfolding remain_loop
  sum_unscheduled permut front limit2 = remain_loop (limit2 - front) front permut (λ j. 0)

  -- `evalSolution`: the makespan of a permutation
  unfoldable pub eval_solution : (ℕ → ℕ) → ℕ
  unfolding front_loop
  eval_solution permut = front_loop inst.nb_job 0 permut (λ j. 0) (inst.nb_machines - 1)

  -- The same over lists, for statements about schedules: the vector after the jobs of a list, and
  -- the tails before them.
  unfoldable pub heads : (ℕ → ℕ) → List ℕ → ℕ → ℕ
  heads f [] = f
  heads f (job ∷ jobs) = heads (push_front job f) jobs

  unfoldable pub tails : (ℕ → ℕ) → List ℕ → ℕ → ℕ
  tails b [] = b
  tails b (job ∷ jobs) = push_back job (tails b jobs)

  -- The makespan of a sequence of jobs.
  unfoldable pub makespan : List ℕ → ℕ
  unfolding heads
  makespan jobs = heads (λ j. 0) jobs (inst.nb_machines - 1)

  -- The time that the jobs of a list take on machine `j`.
  unfoldable pub load : ℕ → List ℕ → ℕ
  load j [] = 0
  load j (job ∷ jobs) = inst.temps_job j job + load j jobs
