-- ===== src/Flowshop/Least.antt =====
-- `minTempsDep` and `minTempsArr` stay below every job's run-out and run-in times.
use pbbperm.Base.{
  ℕ, zero, suc, ◌+◌, ◌-◌, ◌≤◌, ◌<◌, ◌≡◌, refl, ap, ◌∙◌, arith, ℕ_discrete, dec_lt, if◌then◌else◌,
  ◌==◌, subst,
}
use pbbperm.Flowshop.Vectors.{
  Instance, push_front, run_in, run_out, run_out_gap, dep_round, dep_loop, min_temps_dep, arr_round,
  arr_loop, min_temps_arr, int_max,
}
use pbbperm.Flowshop.Paths.{start, push_front-start, push_front_mono, start-suc, Fits}

module _ (inst : Instance) where
  dep_loop-le : (n q : ℕ) (d : ℕ → ℕ) (k : ℕ) → dep_loop inst n q d k ≤ d k
  unfolding dep_loop dep_round
  dep_loop-le zero q d k = omega arith
  dep_loop-le (suc n) q d k = ground (arith, dep_loop-le n (suc q) (dep_round inst q d) k)

  dep_loop-le-run_out :
      (n q : ℕ) (d : ℕ → ℕ) (k job : ℕ)
      → suc k < inst.nb_machines
      → q ≤ job
      → job < q + n
      → dep_loop inst n q d k ≤ run_out inst job (suc k)
  unfolding dep_loop dep_round
  dep_loop-le-run_out zero q d k job hk lo hi = absurd (omega arith)
  dep_loop-le-run_out (suc n) q d k job hk lo hi = elim (ℕ_discrete q job) [
    | yes e ↦
        subst (λ t. dep_loop inst n (suc q) (dep_round inst q d) k ≤ run_out inst t (suc k)) e
          (ground (arith, dep_loop-le n (suc q) (dep_round inst q d) k))
    | no ne ↦
        dep_loop-le-run_out n (suc q) (dep_round inst q d) k job hk (omega arith) (omega arith)
  ]

  dep_loop_last :
      (n q : ℕ) (d : ℕ → ℕ) (k : ℕ) → inst.nb_machines ≤ suc k → dep_loop inst n q d k ≡ d k
  unfolding dep_loop dep_round
  dep_loop_last zero q d k h = refl
  dep_loop_last (suc n) q d k h = dep_loop_last n (suc q) (dep_round inst q d) k h ∙ ground arith

  run_out_last : (job k : ℕ) → suc k ≡ inst.nb_machines → run_out inst job k ≡ inst.temps_job k job
  unfolding run_out run_out_gap
  run_out_last job k e =
      let gap : inst.nb_machines - 1 - k ≡ 0 = omega arith in
      let top : inst.nb_machines - 1 ≡ k = omega arith in
      ap (run_out_gap inst job) gap ∙ ap (λ j. inst.temps_job j job) top

  run_out_next :
      (job k : ℕ)
      → suc k < inst.nb_machines
      → run_out inst job k ≡ run_out inst job (suc k) + inst.temps_job k job
  unfolding run_out run_out_gap
  run_out_next job k h =
      let gap : inst.nb_machines - 1 - k ≡ suc (inst.nb_machines - 1 - suc k) = omega arith in
      let back : inst.nb_machines - 1 - suc (inst.nb_machines - 1 - suc k) ≡ k = omega arith in
      ap (run_out_gap inst job) gap
      ∙ ap (λ j. run_out_gap inst job (inst.nb_machines - 1 - suc k) + inst.temps_job j job) back

  push_front-run_out-le :
      (job : ℕ) (f : ℕ → ℕ) (n j : ℕ)
      → n + suc (suc j) ≡ inst.nb_machines
      → push_front inst job f j + run_out inst job (suc j)
        ≤ push_front inst job f (inst.nb_machines - 1)
  push_front-run_out-le job f zero j e =
      let top : suc j ≡ inst.nb_machines - 1 = omega arith in
      subst (λ k. push_front inst job f j + run_out inst job (suc j) ≤ push_front inst job f k) top
        (omega (
          arith,
          run_out_last job (suc j) (omega arith),
          start-suc inst job f j,
          push_front-start inst job f (suc j),
        ))
  push_front-run_out-le job f (suc n) j e = omega (
    arith,
    run_out_next job (suc j) (omega arith),
    start-suc inst job f j,
    push_front-start inst job f (suc j),
    push_front-run_out-le job f n (suc j) (omega arith),
  )

  -- Behind any job of the instance there is room for the least departure times, whatever the value
  -- that the code starts from.
  pub dep_loop-Fits :
      (infinity : ℕ)
      → Fits inst
          (dep_loop inst inst.nb_job 0 (λ k. if suc k == inst.nb_machines then 0 else infinity))
          (λ job. job < inst.nb_job)
  dep_loop-Fits infinity job f j ok h =
      let dep =
        dep_loop inst inst.nb_job 0 (λ k. if suc k == inst.nb_machines then 0 else infinity) in
      elim (dec_lt (suc j) inst.nb_machines) [
        | yes inner ↦ omega (
          arith,
          dep_loop-le-run_out inst.nb_job 0 (λ k. if suc k == inst.nb_machines then 0 else infinity)
              j job inner (omega arith) (omega arith),
          push_front-run_out-le job f (inst.nb_machines - suc (suc j)) j (omega arith),
        )
        | no last ↦
            let none_left : dep j ≡ 0 =
              dep_loop_last inst.nb_job 0 (λ k. if suc k == inst.nb_machines then 0 else infinity) j
                (omega arith)
              ∙ ground arith in
            omega
              (arith, none_left, push_front_mono inst job f j (inst.nb_machines - 1) (omega arith))
      ]

  -- Behind any job of the instance there is room for `minTempsDep`.
  pub min_temps_dep-Fits : Fits inst (min_temps_dep inst) (λ job. job < inst.nb_job)
  unfolding min_temps_dep
  min_temps_dep-Fits = dep_loop-Fits int_max

  pub zero-Fits : (IsJob : ℕ → Type 0) → Fits inst (λ j. 0) IsJob
  zero-Fits IsJob job f j ok h =
      omega (arith, push_front_mono inst job f j (inst.nb_machines - 1) (omega arith))

  arr_loop-le : (n q : ℕ) (a : ℕ → ℕ) (k : ℕ) → arr_loop inst n q a k ≤ a k
  unfolding arr_loop arr_round
  arr_loop-le zero q a k = omega arith
  arr_loop-le (suc n) q a zero = arr_loop-le n (suc q) (arr_round inst q a) 0
  arr_loop-le (suc n) q a (suc k) =
      ground (arith, arr_loop-le n (suc q) (arr_round inst q a) (suc k))

  arr_loop-le-run_in :
      (n q : ℕ) (a : ℕ → ℕ) (k job : ℕ)
      → q ≤ job
      → job < q + n
      → arr_loop inst n q a (suc k) ≤ run_in inst job k
  unfolding arr_loop arr_round
  arr_loop-le-run_in zero q a k job lo hi = absurd (omega arith)
  arr_loop-le-run_in (suc n) q a k job lo hi = elim (ℕ_discrete q job) [
    | yes e ↦
        subst (λ t. arr_loop inst n (suc q) (arr_round inst q a) (suc k) ≤ run_in inst t k) e
          (ground (arith, arr_loop-le n (suc q) (arr_round inst q a) (suc k)))
    | no ne ↦ arr_loop-le-run_in n (suc q) (arr_round inst q a) k job (omega arith) (omega arith)
  ]

  run_in-le-push_front : (job : ℕ) (f : ℕ → ℕ) (k : ℕ) → run_in inst job k ≤ push_front inst job f k
  unfolding run_in push_front
  run_in-le-push_front job f zero = omega arith
  run_in-le-push_front job f (suc k) = omega (arith, run_in-le-push_front job f k)

  module _ (infinity : ℕ) where
    abbrev arr : ℕ → ℕ
    arr = arr_loop inst inst.nb_job 0 (λ k. if k == 0 then 0 else infinity)

    arr_zero : arr 0 ≡ 0
    arr_zero = omega (arith, arr_loop-le inst.nb_job 0 (λ k. if k == 0 then 0 else infinity) 0)

    arr-le-run_in : (job : ℕ) → job < inst.nb_job → (k : ℕ) → arr (suc k) ≤ run_in inst job k
    arr-le-run_in job ok k = arr_loop-le-run_in inst.nb_job 0 _ k job (omega arith) (omega arith)

    push_front-arr-le :
        (job : ℕ) → job < inst.nb_job → (k : ℕ) → push_front inst job arr k ≤ run_in inst job k
    unfolding push_front run_in
    push_front-arr-le job ok zero = omega (arith, arr_zero)
    push_front-arr-le job ok (suc k) =
        omega (arith, arr-le-run_in job ok k, push_front-arr-le job ok k)

    -- No job starts later after the least arrival times than it does as the first job, whatever the
    -- value that the code starts from.
    pub start-arr_loop-le :
        (job : ℕ)
        → job < inst.nb_job
        → (k : ℕ)
        → start inst job (arr_loop inst inst.nb_job 0 (λ k. if k == 0 then 0 else infinity)) k
          ≤ start inst job (λ j. 0) k
    unfolding start
    start-arr_loop-le job ok zero = omega (arith, arr_zero)
    start-arr_loop-le job ok (suc k) = omega (
      arith,
      arr-le-run_in job ok k,
      push_front-arr-le job ok k,
      run_in-le-push_front job (λ j. 0) k,
    )

  -- No job starts later after `minTempsArr` than it does as the first job.
  pub start-min_temps_arr-le :
      (job : ℕ)
      → job < inst.nb_job
      → (k : ℕ) → start inst job (min_temps_arr inst) k ≤ start inst job (λ j. 0) k
  unfolding min_temps_arr
  start-min_temps_arr-le = start-arr_loop-le int_max
