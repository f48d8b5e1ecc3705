-- ===== src/Flowshop/Paths.antt =====
-- Heads and tails of a schedule: along every machine the head, the work in between and the tail add
-- up to at most the makespan.
use pbbperm.Base.{
  ℕ, zero, suc, ◌+◌, ◌-◌, ◌≤◌, ◌<◌, max, ◌≡◌, refl, ap, ◌∙◌, subst, List, [], ◌∷◌, ◌++◌, arith,
  dec_le, All,
}
use pbbperm.Flowshop.Vectors.{Instance, push_front, push_back_gap, push_back, heads, tails, load}

module _ (inst : Instance) where
  -- When a job starts on machine `j`.
  unfoldable pub start : ℕ → (ℕ → ℕ) → ℕ → ℕ
  start job f zero = f 0
  start job f (suc j) = max (push_front inst job f j) (f (suc j))

  pub push_front-start :
      (job : ℕ) (f : ℕ → ℕ) (j : ℕ) → push_front inst job f j ≡ start job f j + inst.temps_job j job
  unfolding push_front start
  push_front-start job f zero = refl
  push_front-start job f (suc j) = refl

  pub start-ge : (job : ℕ) (f : ℕ → ℕ) (j : ℕ) → f j ≤ start job f j
  unfolding start
  start-ge job f zero = omega arith
  start-ge job f (suc j) = omega arith

  pub start-suc : (job : ℕ) (f : ℕ → ℕ) (j : ℕ) → push_front inst job f j ≤ start job f (suc j)
  unfolding start
  start-suc job f j = omega arith

  pub push_front_mono :
      (job : ℕ) (f : ℕ → ℕ) (i j : ℕ) → i ≤ j → push_front inst job f i ≤ push_front inst job f j
  push_front_mono job f i zero h =
      let e : 0 ≡ i = omega arith in
      subst (λ k. push_front inst job f k ≤ push_front inst job f 0) e (omega arith)
  push_front_mono job f i (suc j) h = elim (dec_le i j) [
    | yes below ↦
        omega (
          arith,
          push_front_mono job f i j below,
          start-suc job f j,
          push_front-start job f (suc j),
        )
    | no top ↦
        let e : suc j ≡ i = omega arith in
        subst (λ k. push_front inst job f k ≤ push_front inst job f (suc j)) e (omega arith)
  ]

  -- The tail of the last machine, and of one before it.
  pub push_back_last :
      (job : ℕ) (b : ℕ → ℕ) (j : ℕ)
      → suc j ≡ inst.nb_machines
      → push_back inst job b j ≡ b j + inst.temps_job j job
  unfolding push_back push_back_gap
  push_back_last job b j e =
      let gap : inst.nb_machines - 1 - j ≡ 0 = omega arith in
      let top : inst.nb_machines - 1 ≡ j = omega arith in
      ap (push_back_gap inst job b) gap ∙ ap (λ k. b k + inst.temps_job k job) top

  pub push_back_next :
      (job : ℕ) (b : ℕ → ℕ) (j : ℕ)
      → suc j < inst.nb_machines
      → push_back inst job b j ≡ max (b j) (push_back inst job b (suc j)) + inst.temps_job j job
  unfolding push_back push_back_gap
  push_back_next job b j h =
      let gap : inst.nb_machines - 1 - j ≡ suc (inst.nb_machines - 1 - suc j) = omega arith in
      let back : inst.nb_machines - 1 - suc (inst.nb_machines - 1 - suc j) ≡ j = omega arith in
      ap (push_back_gap inst job b) gap
      ∙ ap
          (λ k.
            max (b k) (push_back_gap inst job b (inst.nb_machines - 1 - suc j))
            + inst.temps_job k job)
          back

  -- What a vector `b` has to promise for the machines after the last job: whatever job comes last,
  -- the makespan leaves room for `b`.
  abbrev pub Fits : (ℕ → ℕ) → (ℕ → Type 0) → Type 0
  Fits b IsJob =
      (job : ℕ) (f : ℕ → ℕ) (j : ℕ)
      → IsJob job
      → j < inst.nb_machines
      → push_front inst job f j + b j ≤ push_front inst job f (inst.nb_machines - 1)

  -- One job: if each machine's tail behind it fits under `x`, so does the job's own tail.
  pub start-push_back-le :
      (job x : ℕ) (f t : ℕ → ℕ)
      → ((j : ℕ) → j < inst.nb_machines → push_front inst job f j + t j ≤ x)
      → (n j : ℕ) → n + suc j ≡ inst.nb_machines
      → start job f j + push_back inst job t j ≤ x
  start-push_back-le job x f t room zero j e =
      omega (
        arith,
        room j (omega arith),
        push_front-start job f j,
        push_back_last job t j (omega arith),
      )
  start-push_back-le job x f t room (suc n) j e = omega (
    arith,
    room j (omega arith),
    push_front-start job f j,
    push_back_next job t j (omega arith),
    start-suc job f j,
    start-push_back-le job x f t room n (suc j) (omega arith),
  )

  module _ (b : ℕ → ℕ) (IsJob : ℕ → Type 0) (fits : Fits b IsJob) where
    -- Behind its start, a job's tail fits under the makespan.
    pub start-tails-le :
        (job : ℕ) (jobs : List ℕ) (f : ℕ → ℕ)
        → All IsJob (job ∷ jobs)
        → (j : ℕ) → j < inst.nb_machines
        → start job f j + tails inst b (job ∷ jobs) j
          ≤ heads inst f (job ∷ jobs) (inst.nb_machines - 1)
    unfolding heads tails
    start-tails-le job [] f ok j h =
        start-push_back-le job _ f b (λ k hk. fits job f k ok.0 hk) (inst.nb_machines - suc j) j
          (omega arith)
    start-tails-le job (next ∷ jobs) f ok j h =
        start-push_back-le job _ f (tails inst b (next ∷ jobs))
          (λ k hk. omega (
            arith,
            start-ge next (push_front inst job f) k,
            start-tails-le next jobs (push_front inst job f) ok.1 k hk,
          ))
          (inst.nb_machines - suc j) j (omega arith)

    -- The same behind a vector that a job has left.
    pub push_front-tails-le :
        (job : ℕ) (jobs : List ℕ) (f : ℕ → ℕ)
        → All IsJob (job ∷ jobs)
        → (j : ℕ) → j < inst.nb_machines
        → push_front inst job f j + tails inst b jobs j
          ≤ heads inst f (job ∷ jobs) (inst.nb_machines - 1)
    unfolding heads tails
    push_front-tails-le job [] f ok j h = fits job f j ok.0 h
    push_front-tails-le job (next ∷ jobs) f ok j h = omega (
      arith,
      start-ge next (push_front inst job f) j,
      start-tails-le next jobs (push_front inst job f) ok.1 j h,
    )

    -- The head of a job, the work of the jobs `middle` and the tail of the rest.
    pub push_front-load-tails-le :
        (middle rest : List ℕ) (job : ℕ) (f : ℕ → ℕ)
        → All IsJob (job ∷ (middle ++ rest))
        → (j : ℕ) → j < inst.nb_machines
        → push_front inst job f j + load inst j middle + tails inst b rest j
          ≤ heads inst f (job ∷ (middle ++ rest)) (inst.nb_machines - 1)
    unfolding load heads
    push_front-load-tails-le [] rest job f ok j h =
        omega (arith, push_front-tails-le job rest f ok j h)
    push_front-load-tails-le (next ∷ middle) rest job f ok j h = omega (
      arith,
      push_front-start next (push_front inst job f) j,
      start-ge next (push_front inst job f) j,
      push_front-load-tails-le middle rest next (push_front inst job f) ok.1 j h,
    )
