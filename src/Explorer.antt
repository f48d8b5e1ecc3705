-- ===== src/Explorer.antt =====
-- multicore/src/ivm_bound.cpp: how an explorer's matrix becomes a search node, and how the node's
-- bounds flag the children in the matrix. The settings are boundMode 0, sortNodes 0 and no node
-- priority, and there is no strong bound.
pub mod Steps
pub mod Potential
pub mod Ends
pub mod Drive
pub mod Start
pub mod Decode
use pbbperm.Base.{
  some, ℕ, zero, suc, ◌+◌, ◌-◌, ◌*◌, Bool, true, false, ◌&&◌, ◌||◌, not, ltb, leb, ◌==◌,
  if◌then◌else◌, write, ℤ, pos, negsuc, absolute, negative,
}
use pbbperm.Ivm.{Ivm, flag_cell}
use pbbperm.Flowshop.Vectors.{Instance, eval_solution}
use pbbperm.Flowshop.Weak.{bound_children}
use pbbperm.Subproblem.{Subproblem}
use pbbperm.Solution.{Solution, update}
use pbbperm.Branching.{choose_children_set}

-- The problem, `branchingMode`, `singleNode`, `initialUB`, `findAll`, and what lies before an array.
pub record Settings : Type 0 where
  pub inst : Instance
  pub branching_mode : ℤ
  pub single_node : Bool
  pub initial_ub : ℕ
  pub find_all : Bool
  pub outside : ℕ → ℕ

-- An explorer with its node, the arrays of `ivm_bound`, and the incumbent that it shares.
pub record Explorer : Type 0 where
  pub ivm : Ivm
  pub node : Subproblem
  pub costs_begin : ℕ → ℕ
  pub costs_end : ℕ → ℕ
  pub prio_begin : ℕ → ℕ
  pub prio_end : ℕ → ℕ
  pub local_best : ℕ
  pub sltn : Solution
  pub found_solution : Bool
  pub leaves : ℕ
  pub tot_decomposed : ℕ
  pub simple_bounds : ℕ

-- branchingMode > 0
abbrev is_positive : ℤ → Bool
is_positive (pos zero) = false
is_positive (pos (suc n)) = true
is_positive (negsuc n) = false

-- dir == 0 and dir == 1
abbrev is_front : ℤ → Bool
is_front (pos n) = n == 0
is_front (negsuc n) = false

abbrev is_back : ℤ → Bool
is_back (pos n) = n == 1
is_back (negsuc n) = false

abbrev same_int : ℤ → ℤ → Bool
same_int (pos m) (pos n) = m == n
same_int (negsuc m) (negsuc n) = m == n
same_int (pos m) (negsuc n) = false
same_int (negsuc m) (pos n) = false

-- The entry of an array of costs for a job; a flagged one is outside of it.
abbrev cost_at : Settings → (ℕ → ℕ) → ℤ → ℕ
cost_at c costs (pos job) = costs job
cost_at c costs (negsuc n) = c.outside n

-- `gtBest`
unfoldable pub gt_best : Settings → ℕ → ℕ → Bool
gt_best c value best = if c.find_all then ltb best value else leb best value

-- The loop of `prepareSchedule` over the lines above the current one: `n` lines from `l` on.
pub place_pointed : ℕ → ℕ → Ivm → Subproblem → Subproblem
place_pointed zero l v n = n
place_pointed (suc k) l v n =
    let job = absolute (v.job_mat l (v.pos_vect l)) in
    place_pointed k (suc l) v (
      if is_front (v.dir_vect l)
      then record n { schedule = write n.schedule n.front job; front = suc n.front }
      else record n { schedule = write n.schedule (n.limit2 - 1) job; limit2 = n.limit2 - 1 })

-- Its second loop, and the refill of `prune`: the current line's jobs behind the front.
abbrev place_open : Ivm → Subproblem → Subproblem
place_open v n = record n {
  schedule = λ i.
      if leb n.front i && ltb i (n.front + (v.size - v.line))
      then absolute (v.job_mat v.line (i - n.front))
      else n.schedule i;
}

-- `prepareSchedule`
unfoldable pub prepare_schedule : Explorer → Explorer
unfolding place_pointed
prepare_schedule s =
    let v = s.ivm in
    let start = record s.node { front = 0; limit2 = v.size } in
    record s { node = place_open v (place_pointed v.line 0 v start) }

-- `computeWeakBounds`
unfoldable pub compute_weak_bounds : Settings → Explorer → Explorer
compute_weak_bounds c s =
    let n = s.node in
    let both = is_positive c.branching_mode in
    let r = bound_children c.inst both n.schedule n.front n.limit2 (record {
      costs_begin = s.costs_begin;
      costs_end = s.costs_end;
      prio_begin = s.prio_begin;
      prio_end = s.prio_end;
    }) in
    record s {
      costs_begin = r.costs_begin;
      costs_end = r.costs_end;
      prio_begin = r.prio_begin;
      prio_end = r.prio_end;
      simple_bounds =
          s.simple_bounds + (if both then 2 * (n.limit2 - n.front) else n.limit2 - n.front);
    }

-- `boundLeaf`, with its result
unfoldable pub bound_leaf : Settings → Explorer → Explorer × Bool
unfolding gt_best
bound_leaf c s = (
  record reached { ivm = record v { job_mat = flag_cell v.job_mat v.line (v.pos_vect v.line) } },
  better,
)
  where
    v : Ivm
    v = s.ivm

    cost : ℕ
    cost = eval_solution c.inst s.node.schedule

    better : Bool
    better = not (gt_best c cost s.local_best)

    reached : Explorer
    reached =
        if better
        then record s {
          leaves = suc s.leaves;
          local_best = cost;
          sltn = (update (some s.node.schedule) cost s.sltn).0;
          found_solution = true;
        }
        else record s { leaves = suc s.leaves }

-- The loop of `eliminateJobs`: flags the jobs of a row of the given width whose cost is no better.
unfoldable pub eliminate_jobs : Settings → ℕ → ℕ → (ℕ → ℕ) → (ℕ → ℕ) → (ℕ → ℤ) → ℕ → ℤ
unfolding gt_best
eliminate_jobs c best width cost1 cost2 row i =
    if ltb i width
      && (gt_best c (cost_at c cost1 (row i)) best || gt_best c (cost_at c cost2 (row i)) best)
    then negative (row i)
    else row i

-- The first `width` cells of a row in reverse.
abbrev reversed : ℕ → (ℕ → ℤ) → ℕ → ℤ
reversed width row i = if ltb i width then row (width - 1 - i) else row i

-- `prune` with sortNodes 0
unfoldable pub prune : Settings → Explorer → Explorer
unfolding eliminate_jobs
prune c s = record s {
  ivm = record v { job_mat = λ l. if v.line == l then flagged else v.job_mat l };
  node = if is_back prev && is_front dir then place_open turned s.node else s.node;
}
  where
    v : Ivm
    v = s.ivm

    width : ℕ
    width = v.size - v.line

    dir : ℤ
    dir = v.dir_vect v.line

    prev : ℤ
    prev = if ltb 0 v.line then v.dir_vect (v.line - 1) else pos 0

    row : ℕ → ℤ
    row = if same_int prev dir then v.job_mat v.line else reversed width (v.job_mat v.line)

    turned : Ivm
    turned = record v { job_mat = λ l. if v.line == l then row else v.job_mat l }

    flagged : ℕ → ℤ
    flagged =
        if is_back dir
        then eliminate_jobs c s.local_best width s.costs_end s.costs_end row
        else if is_front dir
        then eliminate_jobs c s.local_best width s.costs_begin s.costs_begin row
        else row

-- `weakBoundPrune`
unfoldable pub weak_bound_prune : Settings → Explorer → Explorer
unfolding compute_weak_bounds prune
weak_bound_prune c s =
    let t = compute_weak_bounds c s in
    let v = t.ivm in
    let ub = if c.single_node then t.local_best else c.initial_ub in
    let dir = choose_children_set c.branching_mode v.line v.size ub t.costs_begin t.costs_end in
    prune c (record t { ivm = record v { dir_vect = write v.dir_vect v.line dir } })
