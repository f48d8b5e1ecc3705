-- ===== src/Flowshop/Feasible.antt =====
-- What a makespan is: the least time at which a schedule of the jobs, in the order of the permutation
-- on each machine, can end. `evalSolution` of bounds/src/bound_fsp_weak.cpp computes it.
use pbbperm.Base.{ℕ, zero, suc, ◌+◌, ◌-◌, ◌≤◌, ◌<◌, ◌≡◌, refl, ap, ◌∙◌, arith, dec_lt}
use pbbperm.Flowshop.Vectors.{Instance, push_front, front_loop, eval_solution}
use pbbperm.Flowshop.Paths.{start, push_front-start, start-ge, start-suc, push_front_mono}

-- The job at cell `k` starts at `s k j` on machine `j`, and takes its time there. A job goes from
-- machine to machine, a machine takes one job after the other, and all is done at `c`.
pub record IsFeasible (inst : Instance) (permut : ℕ → ℕ) (c : ℕ) (s : ℕ → ℕ → ℕ) : Type 0 where
  pub route :
      (k j : ℕ)
      → k < inst.nb_job
      → suc j < inst.nb_machines
      → s k j + inst.temps_job j (permut k) ≤ s k (suc j)
  pub one_by_one :
      (k j : ℕ)
      → suc k < inst.nb_job
      → j < inst.nb_machines
      → s k j + inst.temps_job j (permut k) ≤ s (suc k) j
  pub done :
      (k j : ℕ) → k < inst.nb_job → j < inst.nb_machines → s k j + inst.temps_job j (permut k) ≤ c

module _ (inst : Instance) (permut : ℕ → ℕ) where
  -- When the first `k` jobs leave the machines.
  abbrev ready : ℕ → ℕ → ℕ
  ready k = front_loop inst k 0 permut (λ j. 0)

  front_loop-snoc :
      (n i : ℕ) (f : ℕ → ℕ)
      → front_loop inst (suc n) i permut f
        ≡ push_front inst (permut (i + n)) (front_loop inst n i permut f)
  unfolding front_loop
  front_loop-snoc zero i f =
      ap (λ k. push_front inst (permut k) f) {x = i} {y = i + 0} (omega arith)
  front_loop-snoc (suc n) i f =
      front_loop-snoc n (suc i) (push_front inst (permut i) f)
      ∙ ap
          (λ k.
            push_front inst (permut k)
              (front_loop inst n (suc i) permut (push_front inst (permut i) f)))
          {x = suc i + n} {y = i + suc n} (omega arith)

  ready-suc : (k j : ℕ) → ready (suc k) j ≡ push_front inst (permut k) (ready k) j
  ready-suc k j =
      ap (λ (f : ℕ → ℕ). f j) (front_loop-snoc k 0 (λ j'. 0))
      ∙ ap (λ i. push_front inst (permut i) (ready k) j) {x = 0 + k} {y = k} (omega arith)

  -- When the code starts the job at cell `k` on machine `j`.
  abbrev begins : ℕ → ℕ → ℕ
  begins k j = start inst (permut k) (ready k) j

  ready-begins : (k j : ℕ) → ready (suc k) j ≡ begins k j + inst.temps_job j (permut k)
  ready-begins k j = ready-suc k j ∙ push_front-start inst (permut k) (ready k) j

  ready_mono : (n k j : ℕ) → ready k j ≤ ready (n + k) j
  ready_mono zero k j = omega (arith, ap (λ i. ready i j) {x = 0 + k} {y = k} (omega arith))
  ready_mono (suc n) k j = omega (
    arith,
    ready_mono n k j,
    start-ge inst (permut (n + k)) (ready (n + k)) j,
    ready-begins (n + k) j,
    ap (λ i. ready i j) {x = suc n + k} {y = suc (n + k)} (omega arith),
  )

  last-ready :
      (k j : ℕ)
      → k < inst.nb_job
      → j < inst.nb_machines
      → ready (suc k) j ≤ eval_solution inst permut
  unfolding eval_solution
  last-ready k j hk hj = omega (
    arith,
    push_front_mono inst (permut k) (ready k) j (inst.nb_machines - 1) (omega arith),
    ready-suc k j,
    ready-suc k (inst.nb_machines - 1),
    ready_mono (inst.nb_job - suc k) (suc k) (inst.nb_machines - 1),
    ap (λ i. ready i (inst.nb_machines - 1)) {x = inst.nb_job - suc k + suc k} {y = inst.nb_job}
        (omega arith),
  )

  begins-IsFeasible : IsFeasible inst permut (eval_solution inst permut) begins
  begins-IsFeasible = record {
    route = λ k j hk hj. omega (
      arith,
      push_front-start inst (permut k) (ready k) j,
      start-suc inst (permut k) (ready k) j,
    );
    one_by_one = λ k j hk hj.
        omega (arith, ready-begins k j, start-ge inst (permut (suc k)) (ready (suc k)) j);
    done = λ k j hk hj. omega (arith, ready-begins k j, last-ready k j hk hj);
  }

  module _ (c : ℕ) (s : ℕ → ℕ → ℕ) (ok : IsFeasible inst permut c s) where
    -- No feasible schedule starts a job before the code does.
    begins-le : (k j : ℕ) → k < inst.nb_job → j < inst.nb_machines → begins k j ≤ s k j
    unfolding start front_loop
    begins-le zero zero hk hj = omega arith
    begins-le zero (suc j) hk hj = omega (
      arith,
      begins-le zero j hk (omega arith),
      push_front-start inst (permut 0) (ready 0) j,
      ok.route 0 j hk hj,
    )
    begins-le (suc k) zero hk hj =
        omega (
          arith,
          begins-le k zero (omega arith) hj,
          ready-begins k zero,
          ok.one_by_one k zero hk hj,
        )
    begins-le (suc k) (suc j) hk hj = omega (
      arith,
      begins-le (suc k) j hk (omega arith),
      push_front-start inst (permut (suc k)) (ready (suc k)) j,
      ok.route (suc k) j hk hj,
      begins-le k (suc j) (omega arith) hj,
      ready-begins k (suc j),
      ok.one_by_one k (suc j) hk hj,
    )

    eval_solution-le : 0 < inst.nb_machines → eval_solution inst permut ≤ c
    unfolding eval_solution
    eval_solution-le hm = elim (dec_lt 0 inst.nb_job) [
      | yes some_job ↦ omega (
        arith,
        begins-le (inst.nb_job - 1) (inst.nb_machines - 1) (omega arith) (omega arith),
        ready-begins (inst.nb_job - 1) (inst.nb_machines - 1),
        ok.done (inst.nb_job - 1) (inst.nb_machines - 1) (omega arith) (omega arith),
        ap (λ i. ready i (inst.nb_machines - 1)) {x = suc (inst.nb_job - 1)} {y = inst.nb_job}
            (omega arith),
      )
      | no no_job ↦
          let empty : ready inst.nb_job (inst.nb_machines - 1) ≡ 0 =
            ap (λ i. ready i (inst.nb_machines - 1)) {x = inst.nb_job} {y = 0} (omega arith)
            ∙ (unfold front_loop in refl) in
          omega (arith, empty)
    ]

-- `evalSolution` computes the least time at which a feasible schedule can end: none ends before, and
-- one ends then. Condition: there is a machine.
pub eval_solution-least :
    (inst : Instance) (permut : ℕ → ℕ) (c : ℕ) (s : ℕ → ℕ → ℕ)
    → 0 < inst.nb_machines
    → IsFeasible inst permut c s
    → (eval_solution inst permut ≤ c)
      × ((t : ℕ → ℕ → ℕ) × IsFeasible inst permut (eval_solution inst permut) t)
eval_solution-least inst permut c s hm ok =
    (eval_solution-le inst permut c s ok hm, (begins inst permut, begins-IsFeasible inst permut))
