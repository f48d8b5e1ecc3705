-- ===== src/Strong/Pairs.antt =====
-- bounds/src/bound_fsp_strong.cpp: the times on two machines that `heuristiqueCmax` computes, and
-- those of a schedule.
use pbbperm.Base.{
  ℕ, zero, suc, ◌+◌, ◌-◌, ◌≤◌, ◌<◌, max, ◌≡◌, ap, ap₂, ◌∙◌, sym, subst, List, [], ◌∷◌, ◌++◌, arith,
  ltb, if◌then◌else◌, Bool, Bool-cases, inl, inr, ℤ, slice, All,
}
use pbbperm.Flowshop.Vectors.{Instance, push_front, heads, tails, load}
use pbbperm.Flowshop.Paths.{start, start-ge, start-suc, push_front-start, push_front-tails-le, Fits}
use pbbperm.Strong.Tables.{lag_sum}
use pbbperm.Strong.Schedule.{is_zero}
use pbbperm.Strong.Bound.{MachinePairs, johnson_loop}
use pbbperm.Strong.Johnson.{finish}

-- The jobs of a list that have flag 0.
unfoldable pub unscheduled : (ℕ → ℤ) → List ℕ → List ℕ
unscheduled flag [] = []
unscheduled flag (x ∷ xs) =
    if is_zero (flag x) then x ∷ unscheduled flag xs else unscheduled flag xs

module _ (inst : Instance) where
  lag_sum-le :
      (n k job lag w : ℕ) (f : ℕ → ℕ)
      → lag + w ≤ push_front inst job f k
      → lag_sum inst n (suc k) job lag + w ≤ push_front inst job f (k + n)
  unfolding lag_sum
  lag_sum-le zero k job lag w f h =
      subst (λ i. lag + w ≤ push_front inst job f i) {x = k} (omega arith) h
  lag_sum-le (suc n) k job lag w f h =
      subst
        (λ i.
          lag_sum inst n (suc (suc k)) job (lag + inst.temps_job (suc k) job) + w
          ≤ push_front inst job f i)
        {x = suc k + n} (omega arith)
        (lag_sum-le n (suc k) job (lag + inst.temps_job (suc k) job) w f
          (omega (arith, start-suc inst job f k, push_front-start inst job f (suc k))))

  module _ (u v : ℕ) (ordered : u < v) (lag : ℕ → ℕ)
      (lags : (job : ℕ) → lag job ≡ lag_sum inst (v - suc u) (suc u) job 0) where
    push_front-lag :
        (job : ℕ) (f : ℕ → ℕ)
        → push_front inst job f u + lag job + inst.temps_job v job ≤ push_front inst job f v
    push_front-lag job f =
        let e : u + (v - suc u) ≡ v - 1 = omega arith in
        let last : suc (v - 1) ≡ v = omega arith in
        omega (
          arith,
          lags job,
          lag_sum-le (v - suc u) u job 0 (push_front inst job f u) f (omega arith),
          ap (push_front inst job f) e,
          start-suc inst job f (v - 1),
          ap (start inst job f) last,
          push_front-start inst job f v,
        )

    -- A schedule takes at least the times of the two machines with the lags.
    pub finish-le-heads :
        (jobs : List ℕ) (f : ℕ → ℕ) (t0 t1 : ℕ)
        → t0 ≤ f u
        → t1 ≤ f v
        → finish inst u v lag jobs t0 t1 ≤ heads inst f jobs v
    unfolding finish heads
    finish-le-heads [] f t0 t1 h0 h1 = h1
    finish-le-heads (job ∷ jobs) f t0 t1 h0 h1 =
        finish-le-heads jobs (push_front inst job f) _ _
          (omega (arith, push_front-start inst job f u, start-ge inst job f u))
          (omega (
            arith,
            push_front-lag job f,
            push_front-start inst job f u,
            start-ge inst job f u,
            push_front-start inst job f v,
            start-ge inst job f v,
          ))

  pub add_load-le-heads :
      (jobs : List ℕ) (f : ℕ → ℕ) (j : ℕ) → f j + load inst j jobs ≤ heads inst f jobs j
  unfolding load heads
  add_load-le-heads [] f j = omega arith
  add_load-le-heads (job ∷ jobs) f j = omega (
    arith,
    add_load-le-heads jobs (push_front inst job f) j,
    push_front-start inst job f j,
    start-ge inst job f j,
  )

  -- `heuristiqueCmax` on the jobs of a row without a flag.
  pub johnson_loop-finish :
      (pairs : MachinePairs) (flag : ℕ → ℤ) (ind ma0 ma1 n j : ℕ) (tmp : ℕ × ℕ)
      → johnson_loop inst pairs flag ind ma0 ma1 n j tmp ≡ (
        tmp.0 + load inst ma0 (unscheduled flag (slice n j (pairs.tab_johnson ind))),
        finish inst ma0 ma1
            (pairs.temps_lag ind)
            (unscheduled flag (slice n j (pairs.tab_johnson ind)))
            tmp.0
            tmp.1,
      )
  unfolding johnson_loop unscheduled slice load finish
  johnson_loop-finish pairs flag ind ma0 ma1 zero j tmp =
      ap (λ t. (t, tmp.1)) {x = tmp.0} {y = tmp.0 + 0} (omega arith)
  johnson_loop-finish pairs flag ind ma0 ma1 (suc n) j tmp =
      let x = pairs.tab_johnson ind j in
      let rest = unscheduled flag (slice n (suc j) (pairs.tab_johnson ind)) in
      let lag = pairs.temps_lag ind in
      let tmp0 = tmp.0 + inst.temps_job ma0 x in
      let tmp1 =
        if ltb (tmp0 + lag x) tmp.1
        then tmp.1 + inst.temps_job ma1 x
        else tmp0 + lag x + inst.temps_job ma1 x in
      let next : Bool → ℕ × ℕ = λ b. if b then (tmp0, tmp1) else tmp in
      let jobs : Bool → List ℕ = λ b. if b then x ∷ rest else rest in
      let result : Bool → ℕ × ℕ =
        λ b. (tmp.0 + load inst ma0 (jobs b), finish inst ma0 ma1 lag (jobs b) tmp.0 tmp.1) in
      elim (Bool-cases (is_zero (flag x))) [
        | inl open_job ↦
            let larger : tmp1 ≡ max tmp.1 (tmp0 + lag x) + inst.temps_job ma1 x = ground arith in
            ap (λ b. johnson_loop inst pairs flag ind ma0 ma1 n (suc j) (next b)) open_job
            ∙ johnson_loop-finish pairs flag ind ma0 ma1 n (suc j) (tmp0, tmp1)
            ∙ ap₂ (λ p q. (p, q)) {x = tmp0 + load inst ma0 rest}
                {y = tmp.0 + (inst.temps_job ma0 x + load inst ma0 rest)} (omega arith)
                (ap (finish inst ma0 ma1 lag rest tmp0) larger)
            ∙ sym (ap result open_job)
        | inr scheduled ↦
            ap (λ b. johnson_loop inst pairs flag ind ma0 ma1 n (suc j) (next b)) scheduled
            ∙ johnson_loop-finish pairs flag ind ma0 ma1 n (suc j) tmp
            ∙ sym (ap result scheduled)
      ]

  -- A list of jobs whose last job leaves room for the tails behind it.
  pub heads-tails-le :
      (b : ℕ → ℕ) (IsJob : ℕ → Type 0) (fits : Fits inst b IsJob) (job : ℕ) (jobs back : List ℕ)
      (f : ℕ → ℕ)
      → All IsJob (job ∷ (jobs ++ back))
      → (j : ℕ) → j < inst.nb_machines
      → heads inst f (job ∷ jobs) j + tails inst b back j
        ≤ heads inst f (job ∷ (jobs ++ back)) (inst.nb_machines - 1)
  unfolding heads
  heads-tails-le b IsJob fits job [] back f ok j h =
      push_front-tails-le inst b IsJob fits job back f ok j h
  heads-tails-le b IsJob fits job (next ∷ jobs) back f ok j h =
      heads-tails-le b IsJob fits next jobs back (push_front inst job f) ok.1 j h

  pub push_front_le :
      (job : ℕ) (f g : ℕ → ℕ)
      → ((j : ℕ) → f j ≤ g j)
      → (j : ℕ) → push_front inst job f j ≤ push_front inst job g j
  unfolding push_front
  push_front_le job f g le zero = omega (arith, le 0)
  push_front_le job f g le (suc j) = omega (arith, le (suc j), push_front_le job f g le j)

  pub heads_le :
      (jobs : List ℕ) (f g : ℕ → ℕ)
      → ((j : ℕ) → f j ≤ g j)
      → (j : ℕ) → heads inst f jobs j ≤ heads inst g jobs j
  unfolding heads
  heads_le [] f g le = le
  heads_le (job ∷ jobs) f g le =
      heads_le jobs (push_front inst job f) (push_front inst job g) (push_front_le job f g le)
