-- ===== src/Flowshop/Machines.antt =====
-- The bounds of a child are the largest of the machines' bounds.
use pbbperm.Base.{
  ℕ, zero, suc, ◌+◌, ◌-◌, ◌≤◌, ◌<◌, max, ◌≡◌, ◌↔◌, sym, subst, arith, ltb, if◌then◌else◌,
  ℕ_discrete, dec_lt,
}
use pbbperm.Flowshop.Vectors.{Instance, push_front, push_back}
use pbbperm.Flowshop.Paths.{start, push_front-start, push_back_last, push_back_next}
use pbbperm.Flowshop.Weak.{
  Partial, front_machines, add_front_and_bound, back_machines, add_back_and_bound,
}

module _ (inst : Instance) (p : Partial) (job : ℕ) where
  -- The time after the job's end on machine `j`, when it stands before the back.
  unfoldable pub behind : ℕ → ℕ
  behind j =
      if ltb (suc j) inst.nb_machines
      then max (p.back j) (push_back inst job p.back (suc j))
      else p.back j

  pub push_back-behind :
      (j : ℕ) → j < inst.nb_machines → push_back inst job p.back j ≡ behind j + inst.temps_job j job
  unfolding behind
  push_back-behind j h = elim (dec_lt (suc j) inst.nb_machines) [
    | yes inner ↦ ground (arith, push_back_next inst job p.back j inner)
    | no last ↦ ground (arith, push_back_last inst job p.back j)
  ]

  -- The bound of machine `j` when the job is appended to the front, and when it is put before the back.
  abbrev pub front_value : ℕ → ℕ
  front_value j = start inst job p.front j + p.remain j + p.back j

  abbrev pub back_value : ℕ → ℕ
  back_value j = p.front j + p.remain j + behind j

  front_machines-le :
      (n i tmp0 lb prio x : ℕ)
      → n + suc i ≡ inst.nb_machines
      → tmp0 ≡ push_front inst job p.front i
      → ((front_machines inst p job n (suc i) tmp0 lb prio).0 ≤ x)
        ↔ ((lb ≤ x) × ((k : ℕ) → i < k → k < inst.nb_machines → front_value k ≤ x))
  unfolding front_machines start
  front_machines-le zero i tmp0 lb prio x e h =
      (λ b. (b, λ k lo hi. absurd (omega arith)), λ b. b.0)
  front_machines-le (suc n) i tmp0 lb prio x e h =
      let tmp1 = max (p.front (suc i)) tmp0 in
      let cmax = tmp1 + p.remain (suc i) + p.back (suc i) in
      let value : cmax ≡ front_value (suc i) = omega arith in
      let next : tmp1 + inst.temps_job (suc i) job ≡ push_front inst job p.front (suc i) =
        omega (arith, push_front-start inst job p.front (suc i)) in
      let ih =
        front_machines-le n (suc i) _ (if ltb lb cmax then cmax else lb) _ x (omega arith) next in
      (
        λ b.
            let b' = ih.0 b in
            (
              ground arith,
              λ k lo hi. elim (ℕ_discrete (suc i) k) [
                | yes here ↦ subst (λ t. front_value t ≤ x) here (ground arith)
                | no later ↦ b'.1 k (omega arith) hi
              ],
            ),
        λ b.
            let here = b.1 (suc i) (omega arith) (omega arith) in
            ih.1 (ground arith, λ k lo hi. b.1 k (omega arith) hi),
      )

  -- `addFrontAndBound` returns the largest of the machines' bounds.
  pub add_front_and_bound-le :
      (x : ℕ)
      → 0 < inst.nb_machines
      → ((add_front_and_bound inst p job).0 ≤ x)
        ↔ ((j : ℕ) → j < inst.nb_machines → front_value j ≤ x)
  unfolding add_front_and_bound start
  add_front_and_bound-le x h =
      let all =
        front_machines-le (inst.nb_machines - 1) 0 _ (p.front 0 + p.remain 0 + p.back 0) 0 x
          (omega arith) (push_front-zero) in
      (
        λ b j hj. elim (ℕ_discrete 0 j) [
          | yes e ↦ subst (λ t. front_value t ≤ x) e (omega (arith, all.0 b))
          | no ne ↦ (all.0 b).1 j (omega arith) hj
        ],
        λ b. all.1 (b 0 (omega arith), λ k lo hi. b k hi),
      )
    where
      push_front-zero : p.front 0 + inst.temps_job 0 job ≡ push_front inst job p.front 0
      push_front-zero = sym (push_front-start inst job p.front 0)

  back_machines-le :
      (n tmp0 lb prio x : ℕ)
      → n < inst.nb_machines
      → tmp0 ≡ push_back inst job p.back n
      → ((back_machines inst p job n tmp0 lb prio).0 ≤ x)
        ↔ ((lb ≤ x) × ((k : ℕ) → k < n → back_value k ≤ x))
  unfolding back_machines
  back_machines-le zero tmp0 lb prio x hn h = (λ b. (b, λ k lo. absurd (omega arith)), λ b. b.0)
  back_machines-le (suc n) tmp0 lb prio x hn h =
      let tmp1 = max tmp0 (p.back n) in
      let cmax = p.front n + p.remain n + tmp1 in
      let late : behind n ≡ tmp1 = unfold behind in ground arith in
      let value : cmax ≡ back_value n = omega arith in
      let next : tmp1 + inst.temps_job n job ≡ push_back inst job p.back n =
        omega (arith, push_back-behind n (omega arith)) in
      let ih = back_machines-le n _ (if ltb lb cmax then cmax else lb) _ x (omega arith) next in
      (
        λ b.
            let b' = ih.0 b in
            (
              ground arith,
              λ k lo. elim (ℕ_discrete n k) [
                | yes here ↦ subst (λ t. back_value t ≤ x) here (ground arith)
                | no later ↦ b'.1 k (omega arith)
              ],
            ),
        λ b. let here = b.1 n (omega arith) in ih.1 (ground arith, λ k lo. b.1 k (omega arith)),
      )

  -- `addBackAndBound` returns the largest of the machines' bounds.
  pub add_back_and_bound-le :
      (x : ℕ)
      → 0 < inst.nb_machines
      → ((add_back_and_bound inst p job).0 ≤ x)
        ↔ ((j : ℕ) → j < inst.nb_machines → back_value j ≤ x)
  unfolding add_back_and_bound
  add_back_and_bound-le x h =
      let last = inst.nb_machines - 1 in
      let top : behind last ≡ p.back last = unfold behind in ground arith in
      let all =
        back_machines-le last _ (p.front last + p.remain last + p.back last) 0 x (omega arith)
          (sym (push_back_last inst job p.back last (omega arith))) in
      (
        λ b j hj. elim (ℕ_discrete last j) [
          | yes e ↦ subst (λ t. back_value t ≤ x) e (omega (arith, all.0 b))
          | no ne ↦ (all.0 b).1 j (omega arith)
        ],
        λ b. all.1 (omega (arith, b last (omega arith)), λ k lo. b k (omega arith)),
      )
