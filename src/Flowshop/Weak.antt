-- ===== src/Flowshop/Weak.antt =====
-- bounds/src/bound_fsp_weak.cpp: the bounds of the children of a node, and of a node.
use pbbperm.Base.{ℕ, zero, suc, ◌+◌, ◌-◌, max, Bool, ltb, if◌then◌else◌, write}
use pbbperm.Flowshop.Vectors.{Instance, schedule_front, schedule_back, sum_unscheduled}

-- The members `front`, `back` and `remain`.
pub record Partial : Type 0 where
  pub front : ℕ → ℕ
  pub back : ℕ → ℕ
  pub remain : ℕ → ℕ

-- |a - b|
abbrev pub distance : ℕ → ℕ → ℕ
distance a b = (a - b) + (b - a)

module _ (inst : Instance) where
  -- `computePartial`
  unfoldable pub compute_partial : (ℕ → ℕ) → ℕ → ℕ → Partial
  compute_partial schedule front limit2 = record {
    front = schedule_front inst schedule front;
    back = schedule_back inst schedule limit2;
    remain = sum_unscheduled inst schedule front limit2;
  }

  -- The loop of `addFrontAndBound`: `n` machines from `j` on. The pair is `lb` and `prio`.
  unfoldable pub front_machines : Partial → ℕ → ℕ → ℕ → ℕ → ℕ → ℕ → ℕ × ℕ
  front_machines p job zero j tmp0 lb prio = (lb, prio)
  front_machines p job (suc n) j tmp0 lb prio =
      let tmp1 = max (p.front j) tmp0 in
      let cmax = tmp1 + p.remain j + p.back j in
      front_machines p job n (suc j) (tmp1 + inst.temps_job j job)
        (if ltb lb cmax then cmax else lb) (prio + distance tmp0 (p.front j))

  -- `addFrontAndBound`: the bound and the priority of appending a job to the front
  unfoldable pub add_front_and_bound : Partial → ℕ → ℕ × ℕ
  unfolding front_machines
  add_front_and_bound p job =
      front_machines p job (inst.nb_machines - 1) 1 (p.front 0 + inst.temps_job 0 job)
        (p.front 0 + p.remain 0 + p.back 0) 0

  -- The loop of `addBackAndBound`: machines `n - 1` down to 0.
  unfoldable pub back_machines : Partial → ℕ → ℕ → ℕ → ℕ → ℕ → ℕ × ℕ
  back_machines p job zero tmp0 lb prio = (lb, prio)
  back_machines p job (suc j) tmp0 lb prio =
      let tmp1 = max tmp0 (p.back j) in
      let cmax = p.front j + p.remain j + tmp1 in
      back_machines p job j (tmp1 + inst.temps_job j job) (if ltb lb cmax then cmax else lb)
        (prio + distance tmp0 (p.back j))

  -- `addBackAndBound`: the bound and the priority of putting a job before the back
  unfoldable pub add_back_and_bound : Partial → ℕ → ℕ × ℕ
  unfolding back_machines
  add_back_and_bound p job =
      let last = inst.nb_machines - 1 in
      back_machines p job last (p.back last + inst.temps_job last job)
        (p.front last + p.remain last + p.back last) 0

  -- One of the two pairs of arrays that `boundChildren` fills: `n` cells of the schedule from `i` on.
  unfoldable pub children_loop :
      (ℕ → ℕ × ℕ) → ℕ → ℕ → (ℕ → ℕ) → (ℕ → ℕ) × (ℕ → ℕ) → (ℕ → ℕ) × (ℕ → ℕ)
  children_loop bound zero i schedule (costs, prios) = (costs, prios)
  children_loop bound (suc n) i schedule (costs, prios) =
      let job = schedule i in
      children_loop bound n (suc i) schedule
        (write costs job (bound job).0, write prios job (bound job).1)

  -- The four arrays of `boundChildren`.
  pub record Children : Type 0 where
    pub costs_begin : ℕ → ℕ
    pub costs_end : ℕ → ℕ
    pub prio_begin : ℕ → ℕ
    pub prio_end : ℕ → ℕ

  -- `boundChildren`; `both` is `branchingMode > 0`. Without it the arrays for the back are left alone.
  unfoldable pub bound_children : Bool → (ℕ → ℕ) → ℕ → ℕ → Children → Children
  unfolding children_loop compute_partial
  bound_children both schedule front limit2 c =
      let p = compute_partial schedule front limit2 in
      let (costs, prios) =
        children_loop (add_front_and_bound p) (limit2 - front) front schedule
          ((λ j. if ltb j inst.nb_job then 0 else c.costs_begin j), c.prio_begin) in
      let (costs', prios') =
        children_loop (add_back_and_bound p) (limit2 - front) front schedule
          ((λ j. if ltb j inst.nb_job then 0 else c.costs_end j), c.prio_end) in
      if both
      then record { costs_begin = costs; costs_end = costs'; prio_begin = prios; prio_end = prios' }
      else record c { costs_begin = costs; prio_begin = prios }

  -- The loop of `bornes_calculer`: `n` machines from `j` on.
  unfoldable pub node_machines : Partial → ℕ → ℕ → ℕ → ℕ → ℕ
  node_machines p zero j tmp0 lb = lb
  node_machines p (suc n) j tmp0 lb =
      let tmp1 = max (p.front j + p.remain j) tmp0 in
      node_machines p n (suc j) tmp1 (max lb (tmp1 + p.back j))

  -- `bornes_calculer`, which leaves the bound in `couts[0]`
  unfoldable pub bornes_calculer : (ℕ → ℕ) → ℕ → ℕ → ℕ
  unfolding node_machines compute_partial
  bornes_calculer permutation front limit2 =
      let p = compute_partial permutation front limit2 in
      let tmp0 = p.front 0 + p.remain 0 in
      node_machines p (inst.nb_machines - 1) 1 tmp0 (tmp0 + p.back 0)
