-- ===== src/Flowshop/Node.antt =====
-- The bound of a node, `bornes_calculer`, never exceeds the makespan of a completion.
use pbbperm.Base.{
  ℕ, zero, suc, ◌+◌, ◌-◌, ◌≤◌, ◌<◌, ◌≡◌, refl, ap, ◌∙◌, subst, List, [], ◌∷◌, ◌++◌, Perm, arith,
  slice, All, All-append_right, All-append_left,
}
use pbbperm.Flowshop.Vectors.{Instance, push_front, makespan, heads, tails, load}
use pbbperm.Flowshop.Weak.{Partial, compute_partial, node_machines, bornes_calculer}
use pbbperm.Flowshop.Paths.{start, start-ge, push_front-start, push_front_mono, push_front-tails-le}
use pbbperm.Flowshop.Lists.{heads-append}
use pbbperm.Flowshop.Admissible.{
  IsJob, IsNode, schedule_back-tails, schedule_front-start-le, sum_unscheduled-load, leaf-heads,
}

module _ (inst : Instance) where
  -- The vector after a list of jobs is what its last job leaves.
  heads_last :
      (jobs : List ℕ) (job : ℕ) (f : ℕ → ℕ)
      → All (IsJob inst) (job ∷ jobs)
      → (last : ℕ) × (g : ℕ → ℕ) × IsJob inst last
        × (heads inst f (job ∷ jobs) ≡ push_front inst last g)
  unfolding heads
  heads_last [] job f ok = (job, f, ok.0, refl)
  heads_last (next ∷ jobs) job f ok = heads_last jobs next (push_front inst job f) ok.1

  load-le-heads :
      (jobs : List ℕ) (job : ℕ) (f : ℕ → ℕ) (j : ℕ)
      → start inst job f j + load inst j (job ∷ jobs) ≤ heads inst f (job ∷ jobs) j
  unfolding heads load
  load-le-heads [] job f j = omega (arith, push_front-start inst job f j)
  load-le-heads (next ∷ jobs) job f j = omega (
    arith,
    push_front-start inst job f j,
    start-ge inst next (push_front inst job f) j,
    load-le-heads jobs next (push_front inst job f) j,
  )

  node_machines-le :
      (p : Partial) (v : ℕ → ℕ) (x n i tmp0 lb : ℕ)
      → n + suc i ≡ inst.nb_machines
      → ((j : ℕ) → v j ≤ v (suc j))
      → ((j : ℕ) → j < inst.nb_machines → p.front j + p.remain j ≤ v j)
      → ((j : ℕ) → j < inst.nb_machines → v j + p.back j ≤ x)
      → tmp0 ≤ v i
      → lb ≤ x
      → node_machines inst p n (suc i) tmp0 lb ≤ x
  unfolding node_machines
  node_machines-le p v x zero i tmp0 lb e grows works room ht hl = hl
  node_machines-le p v x (suc n) i tmp0 lb e grows works room ht hl =
      let a = grows i in
      let b = works (suc i) (omega arith) in
      let c = room (suc i) (omega arith) in
      node_machines-le p v x n (suc i) _ _ (omega arith) grows works room (omega arith)
        (omega arith)

  -- The bound of a node is at most the makespan of every leaf below it: the front, the open jobs in
  -- any order (there is at least one), the back. Conditions: there is a machine, the front ends
  -- before the back begins, and the jobs of the leaf are below the number of jobs.
  pub bornes_calculer-admissible :
      (permut : ℕ → ℕ) (leaf : List ℕ) (front limit2 job : ℕ) (rest : List ℕ)
      → 0 < inst.nb_machines
      → IsNode inst front limit2
      → Perm (job ∷ rest) (slice (limit2 - front) front permut)
      → leaf ≡ slice front 0 permut ++ ((job ∷ rest) ++ slice (inst.nb_job - limit2) limit2 permut)
      → All (IsJob inst) (leaf)
      → bornes_calculer inst permut front limit2 ≤ makespan inst leaf
  unfolding bornes_calculer compute_partial load
  bornes_calculer-admissible permut leaf front limit2 job rest hm node open_jobs e ok =
      let before = slice front 0 permut in
      let after = slice (inst.nb_job - limit2) limit2 permut in
      let jobs =
        All-append_right (IsJob inst) before ((job ∷ rest) ++ after)
          (subst (All (IsJob inst)) e ok) in
      let (b, fits, back) = schedule_back-tails inst permut limit2 node.in_range in
      let f = heads inst (λ k. 0) before in
      let v = heads inst f (job ∷ rest) in
      let (last, g, ok', left) =
        heads_last rest job f (All-append_left (IsJob inst) (job ∷ rest) after jobs) in
      let rest_ok = All-append_right (IsJob inst) (job ∷ rest) after jobs in
      let x = makespan inst leaf in
      let total : x ≡ heads inst v after (inst.nb_machines - 1) =
        leaf-heads inst leaf before ((job ∷ rest) ++ after) e
        ∙ ap (λ h. h (inst.nb_machines - 1)) (heads-append inst (job ∷ rest) after f) in
      let behind : (j : ℕ) → j < inst.nb_machines → v j + tails inst b after j ≤ x = λ j hj.
        rw (total, left)
          (unfold heads in
            push_front-tails-le inst b (IsJob inst) fits last after g (ok', rest_ok) j hj) in
      let grows : (j : ℕ) → v j ≤ v (suc j) =
        λ j. rw left (push_front_mono inst last g j (suc j) (omega arith)) in
      let p = compute_partial inst permut front limit2 in
      let works : (j : ℕ) → j < inst.nb_machines → p.front j + p.remain j ≤ v j = λ j hj. omega (
        arith,
        sum_unscheduled-load inst permut front limit2 job rest open_jobs j,
        start-ge inst job p.front j,
        schedule_front-start-le inst permut front job j jobs.0,
        load-le-heads rest job f j,
      ) in
      let room : (j : ℕ) → j < inst.nb_machines → v j + p.back j ≤ x =
        λ j hj. omega (arith, behind j hj, ap (λ t. t j) back) in
      node_machines-le p v x (inst.nb_machines - 1) 0 _ _ (omega arith) grows works room
        (works 0 hm) (omega (arith, works 0 hm, room 0 hm))
