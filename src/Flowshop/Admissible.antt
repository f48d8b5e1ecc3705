-- ===== src/Flowshop/Admissible.antt =====
-- The weak bound never exceeds the makespan of a completion.
use native.Mathlib.Nat.{le_trans}
use pbbperm.Base.{
  ℕ, ◌+◌, ◌-◌, ◌≤◌, ◌<◌, ◌≡◌, refl, ap, ◌∙◌, subst, List, [], ◌∷◌, ◌++◌, Perm, arith, slice, ◌==◌,
  All, All-append_right, Bool-cases, inl, inr, false, ℕ_discrete,
}
use pbbperm.Flowshop.Vectors.{
  Instance, push_back, schedule_front, schedule_back, sum_unscheduled, heads, tails, makespan, load,
  min_temps_dep,
}
use pbbperm.Flowshop.Weak.{compute_partial, add_front_and_bound, add_back_and_bound}
use pbbperm.Flowshop.Paths.{
  start, start-ge, push_front-start, start-tails-le, push_front-load-tails-le, Fits,
}
use pbbperm.Flowshop.Least.{min_temps_dep-Fits, zero-Fits, start-min_temps_arr-le}
use pbbperm.Flowshop.Lists.{
  front_loop-heads, heads-append, back_loop-tails, remain_loop-load, load-perm,
}
use pbbperm.Flowshop.Machines.{add_front_and_bound-le, add_back_and_bound-le, push_back-behind}

module _ (inst : Instance) where
  abbrev pub IsJob : ℕ → Type 0
  IsJob job = job < inst.nb_job

  -- A node: the first `front` cells of its array are fixed, and so are those from `limit2` on.
  pub record IsNode (front limit2 : ℕ) : Type 0 where
    pub open_cells : front ≤ limit2
    pub in_range : limit2 ≤ inst.nb_job

  pub schedule_back-tails :
      (permut : ℕ → ℕ) (limit2 : ℕ)
      → limit2 ≤ inst.nb_job
      → (b : ℕ → ℕ) × Fits inst b IsJob
        × (schedule_back inst permut limit2
            ≡ tails inst b (slice (inst.nb_job - limit2) limit2 permut))
  unfolding schedule_back tails slice
  schedule_back-tails permut limit2 h = elim (Bool-cases (limit2 == inst.nb_job)) [
    | inl none_behind ↦
        let e : inst.nb_job - limit2 ≡ 0 = ground arith in
        (min_temps_dep inst, min_temps_dep-Fits inst, rw (none_behind, e) refl)
    | inr some_behind ↦ (
      (λ j. 0),
      zero-Fits inst IsJob,
      rw some_behind (back_loop-tails inst (inst.nb_job - limit2) limit2 permut (λ j. 0)),
    )
  ]

  pub schedule_front-start-le :
      (permut : ℕ → ℕ) (front job j : ℕ)
      → IsJob job
      → start inst job (schedule_front inst permut front) j
        ≤ start inst job (heads inst (λ k. 0) (slice front 0 permut)) j
  unfolding schedule_front heads slice
  schedule_front-start-le permut front job j ok = elim (ℕ_discrete front 0) [
    | yes none_before ↦ rw none_before (start-min_temps_arr-le inst job ok j)
    | no some_before ↦
        let test : (front == 0) ≡ false = ground arith in
        rw (test, front_loop-heads inst front 0 permut (λ k. 0)) (omega arith)
  ]

  pub sum_unscheduled-load :
      (permut : ℕ → ℕ) (front limit2 job : ℕ) (rest : List ℕ)
      → Perm (job ∷ rest) (slice (limit2 - front) front permut)
      → (j : ℕ)
      → sum_unscheduled inst permut front limit2 j ≡ inst.temps_job j job + load inst j rest
  unfolding sum_unscheduled load
  sum_unscheduled-load permut front limit2 job rest p j =
      omega
        (arith, remain_loop-load inst (limit2 - front) front permut (λ k. 0) j, load-perm inst j p)

  -- The makespan of a leaf, from the vector that the front leaves.
  pub leaf-heads :
      (leaf xs ys : List ℕ)
      → leaf ≡ xs ++ ys
      → makespan inst leaf ≡ heads inst (heads inst (λ k. 0) xs) ys (inst.nb_machines - 1)
  leaf-heads leaf xs ys e =
      unfold makespan in
      ap (λ l. heads inst (λ k. 0) l (inst.nb_machines - 1)) e
      ∙ ap (λ f. f (inst.nb_machines - 1)) (heads-append inst xs ys (λ k. 0))

  -- The bound of a child that is obtained by appending `job` to the front is at most the makespan
  -- of every leaf below the child: the front, `job`, the other open jobs in any order, the back.
  -- Conditions: there is a machine, the front ends before the back begins, and the jobs of the leaf
  -- are below the number of jobs.
  pub add_front_and_bound-admissible :
      (permut : ℕ → ℕ) (leaf : List ℕ) (front limit2 job : ℕ) (rest : List ℕ)
      → 0 < inst.nb_machines
      → IsNode front limit2
      → Perm (job ∷ rest) (slice (limit2 - front) front permut)
      → leaf ≡ slice front 0 permut ++ job ∷ (rest ++ slice (inst.nb_job - limit2) limit2 permut)
      → All IsJob (leaf)
      → (add_front_and_bound inst (compute_partial inst permut front limit2) job).0
        ≤ makespan inst leaf
  unfolding compute_partial
  add_front_and_bound-admissible permut leaf front limit2 job rest hm node open_jobs e ok =
      let before = slice front 0 permut in
      let after = slice (inst.nb_job - limit2) limit2 permut in
      let jobs = All-append_right IsJob before (job ∷ (rest ++ after)) (subst (All IsJob) e ok) in
      let (b, fits, back) = schedule_back-tails permut limit2 node.in_range in
      let f = heads inst (λ k. 0) before in
      rw (leaf-heads leaf before (job ∷ (rest ++ after)) e) (
        (add_front_and_bound-le inst _ job _ hm).1 λ j hj. omega (
          arith,
          schedule_front-start-le permut front job j jobs.0,
          sum_unscheduled-load permut front limit2 job rest open_jobs j,
          ap (λ t. t j) back,
          push_front-start inst job f j,
          push_front-load-tails-le inst b IsJob fits rest after job f jobs j hj,
        ))

  -- The work of the open jobs and the tail of the job behind them, for a front that starts no job late.
  front-load-tails-le :
      (b f f' : ℕ → ℕ) (job : ℕ) (rest after : List ℕ)
      → Fits inst b IsJob
      → ((first j : ℕ) → IsJob first → f' j ≤ start inst first f j)
      → All IsJob (rest ++ job ∷ after)
      → (j : ℕ) → j < inst.nb_machines
      → f' j + load inst j rest + tails inst b (job ∷ after) j
        ≤ heads inst f (rest ++ job ∷ after) (inst.nb_machines - 1)
  unfolding load
  front-load-tails-le b f f' job [] after fits early ok j hj =
      omega (arith, early job j ok.0, start-tails-le inst b IsJob fits job after f ok j hj)
  front-load-tails-le b f f' job (next ∷ rest) after fits early ok j hj = omega (
    arith,
    early next j ok.0,
    push_front-start inst next f j,
    push_front-load-tails-le inst b IsJob fits rest (job ∷ after) next f ok j hj,
  )

  -- The bound of a child that is obtained by putting `job` before the back is at most the makespan
  -- of every leaf below the child: the front, the other open jobs in any order, `job`, the back.
  -- Conditions: there is a machine, the front ends before the back begins, and the jobs of the leaf
  -- are below the number of jobs.
  pub add_back_and_bound-admissible :
      (permut : ℕ → ℕ) (leaf : List ℕ) (front limit2 job : ℕ) (rest : List ℕ)
      → 0 < inst.nb_machines
      → IsNode front limit2
      → Perm (job ∷ rest) (slice (limit2 - front) front permut)
      → leaf ≡ slice front 0 permut ++ (rest ++ job ∷ slice (inst.nb_job - limit2) limit2 permut)
      → All IsJob (leaf)
      → (add_back_and_bound inst (compute_partial inst permut front limit2) job).0
        ≤ makespan inst leaf
  unfolding compute_partial tails
  add_back_and_bound-admissible permut leaf front limit2 job rest hm node open_jobs e ok =
      let before = slice front 0 permut in
      let after = slice (inst.nb_job - limit2) limit2 permut in
      let jobs = All-append_right IsJob before (rest ++ job ∷ after) (subst (All IsJob) e ok) in
      let (b, fits, back) = schedule_back-tails permut limit2 node.in_range in
      let f = heads inst (λ k. 0) before in
      let p = compute_partial inst permut front limit2 in
      rw (leaf-heads leaf before (rest ++ job ∷ after) e) (
        (add_back_and_bound-le inst p job _ hm).1 λ j hj. omega (
          arith,
          sum_unscheduled-load permut front limit2 job rest open_jobs j,
          push_back-behind inst p job j hj,
          ap (λ t. push_back inst job t j) back,
          front-load-tails-le b f (schedule_front inst permut front) job rest after fits
              (λ first k hk.
                le_trans (start-ge inst first _ k)
                  (schedule_front-start-le permut front first k hk))
              jobs j hj,
        ))
