-- ===== src/Flowshop/Children.antt =====
-- What `boundChildren` leaves in its arrays.
use pbbperm.Base.{
  ℕ, zero, suc, ◌+◌, ◌-◌, ◌≤◌, ◌<◌, ◌≡◌, refl, ap, ap₂, Bool, true, false, arith, ℕ_discrete, List,
  ◌∷◌, ◌++◌, Perm, slice, All,
}
use pbbperm.Flowshop.Vectors.{Instance, makespan}
use pbbperm.Flowshop.Weak.{
  compute_partial, add_front_and_bound, add_back_and_bound, children_loop, Children, bound_children,
}
use pbbperm.Flowshop.Admissible.{
  IsJob, IsNode, add_front_and_bound-admissible, add_back_and_bound-admissible,
}

module _ (inst : Instance) where
  -- A cell that holds its job's bound keeps it.
  children_loop_kept :
      (bound : ℕ → ℕ × ℕ) (n i : ℕ) (schedule costs prios : ℕ → ℕ) (job : ℕ)
      → (costs job ≡ (bound job).0) × (prios job ≡ (bound job).1)
      → let r = children_loop inst bound n i schedule (costs, prios) in
        (r.0 job ≡ (bound job).0) × (r.1 job ≡ (bound job).1)
  unfolding children_loop
  children_loop_kept bound zero i schedule costs prios job h = h
  children_loop_kept bound (suc n) i schedule costs prios job h =
      children_loop_kept bound n (suc i) schedule _ _ job (ground arith, ground arith)

  children_loop_lem :
      (bound : ℕ → ℕ × ℕ) (n i : ℕ) (schedule costs prios : ℕ → ℕ) (k : ℕ)
      → i ≤ k
      → k < i + n
      → let r = children_loop inst bound n i schedule (costs, prios) in
        (r.0 (schedule k) ≡ (bound (schedule k)).0) × (r.1 (schedule k) ≡ (bound (schedule k)).1)
  unfolding children_loop
  children_loop_lem bound zero i schedule costs prios k lo hi = absurd (omega arith)
  children_loop_lem bound (suc n) i schedule costs prios k lo hi = elim (ℕ_discrete i k) [
    | yes e ↦
        let same = ap schedule e in
        let value = ap bound same in
        children_loop_kept bound n (suc i) schedule _ _ (schedule k)
          (ground (arith, ap (λ r. r.0) value), ground (arith, ap (λ r. r.1) value))
    | no ne ↦ children_loop_lem bound n (suc i) schedule _ _ k (omega arith) (omega arith)
  ]

  -- For every open cell of a node, `boundChildren` stores under the cell's job the bound and the
  -- priority of the child that appends the job to the front; if both sides are asked for, also
  -- those of the child that puts it before the back.
  bound_children_lem :
      (both : Bool) (schedule : ℕ → ℕ) (front limit2 : ℕ) (c : Children inst) (k : ℕ)
      → front ≤ k
      → k < limit2
      → let p = compute_partial inst schedule front limit2 in
        let r = bound_children inst both schedule front limit2 c in
        let job = schedule k in
        ((r.costs_begin job, r.prio_begin job) ≡ add_front_and_bound inst p job)
        × (both ≡ true → (r.costs_end job, r.prio_end job) ≡ add_back_and_bound inst p job)
  unfolding bound_children
  bound_children_lem true schedule front limit2 c k lo hi =
      let p = compute_partial inst schedule front limit2 in
      let inside : k < front + (limit2 - front) = omega arith in
      let (a, b) =
        children_loop_lem (add_front_and_bound inst p) (limit2 - front) front schedule _
          c.prio_begin k lo inside in
      let (a', b') =
        children_loop_lem (add_back_and_bound inst p) (limit2 - front) front schedule _ c.prio_end k
          lo inside in
      (ap₂ (λ x y. (x, y)) a b, λ e. ap₂ (λ x y. (x, y)) a' b')
  bound_children_lem false schedule front limit2 c k lo hi =
      let p = compute_partial inst schedule front limit2 in
      let inside : k < front + (limit2 - front) = omega arith in
      let (a, b) =
        children_loop_lem (add_front_and_bound inst p) (limit2 - front) front schedule _
          c.prio_begin k lo inside in
      (ap₂ (λ x y. (x, y)) a b, λ e. cc)

  -- A child at the front that is pruned for a stored cost that is no better than `best` has no better
  -- leaf. Condition: there is a machine, the cell `k` is open, and `leaf` has the fixed jobs at its two
  -- ends, the job of cell `k` behind the front, and the other open jobs in any order.
  pub bound_children_begin-pruning :
      (both : Bool) (schedule : ℕ → ℕ) (leaf : List ℕ) (front limit2 : ℕ) (c : Children inst)
      (k best : ℕ) (rest : List ℕ)
      → 0 < inst.nb_machines
      → IsNode inst front limit2
      → front ≤ k
      → k < limit2
      → Perm (schedule k ∷ rest) (slice (limit2 - front) front schedule)
      → All (IsJob inst) leaf
      → leaf
        ≡ slice front 0 schedule
          ++ schedule k ∷ (rest ++ slice (inst.nb_job - limit2) limit2 schedule)
      → best ≤ (bound_children inst both schedule front limit2 c).costs_begin (schedule k)
      → best ≤ makespan inst leaf
  bound_children_begin-pruning both schedule leaf front limit2 c k best rest hm node lo hi jobs ok e
        worse =
      let (a, b) = bound_children_lem both schedule front limit2 c k lo hi in
      omega (
        arith,
        ap (λ r. r.0) a,
        add_front_and_bound-admissible inst schedule leaf front limit2 (schedule k) rest hm node
            jobs e ok,
      )

  -- When both sides are asked for, a child at the back that is pruned for a stored cost that is no
  -- better than `best` has no better leaf. Condition: there is a machine, the cell `k` is open, and
  -- `leaf` has the fixed jobs at its two ends, the job of cell `k` before the back, and the other open
  -- jobs in any order.
  pub bound_children_end-pruning :
      (schedule : ℕ → ℕ) (leaf : List ℕ) (front limit2 : ℕ) (c : Children inst) (k best : ℕ)
      (rest : List ℕ)
      → 0 < inst.nb_machines
      → IsNode inst front limit2
      → front ≤ k
      → k < limit2
      → Perm (schedule k ∷ rest) (slice (limit2 - front) front schedule)
      → All (IsJob inst) leaf
      → leaf
        ≡ slice front 0 schedule
          ++ (rest ++ schedule k ∷ slice (inst.nb_job - limit2) limit2 schedule)
      → best ≤ (bound_children inst true schedule front limit2 c).costs_end (schedule k)
      → best ≤ makespan inst leaf
  bound_children_end-pruning schedule leaf front limit2 c k best rest hm node lo hi jobs ok e
        worse =
      let (a, b) = bound_children_lem true schedule front limit2 c k lo hi in
      omega (
        arith,
        ap (λ r. r.0) (b refl),
        add_back_and_bound-admissible inst schedule leaf front limit2 (schedule k) rest hm node jobs
            e ok,
      )
