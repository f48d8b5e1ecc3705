-- ===== src/Tree.antt =====
-- multicoreLL/src/tree.cpp: branch and bound over a pool of nodes, with the weak bound. The
-- constructor fixes the strategy DEQUE, so the pool is a list with its front first.
pub mod Below
pub mod Cover
pub mod Branches
pub mod Measure
pub mod Decompose
pub mod Search
pub mod Run
use pbbperm.Base.{
  ℕ, zero, suc, ◌+◌, ◌-◌, ◌*◌, Bool, true, false, List, [], ◌∷◌, Option, none, some, ltb,
  if◌then◌else◌, slice, ℤ, pos, negsuc,
}
use pbbperm.Flowshop.Vectors.{Instance, eval_solution}
use pbbperm.Flowshop.Weak.{Children, bound_children}
use pbbperm.Subproblem.{
  Subproblem, Side, begin_order, end_order, new_subproblem, child, simple, leaf,
}
use pbbperm.Solution.{Solution, update, get_best}
use pbbperm.Branching.Signed.{choose_branching}

-- What a tree is configured with: the problem, `branchingMode`, `singleNode`, and what a fresh array
-- holds.
pub record Config : Type 0 where
  pub inst : Instance
  pub branching_mode : ℤ
  pub single_node : Bool
  pub memory : ℕ → ℕ

pub record Tree : Type 0 where
  pub deq : List Subproblem
  pub local_best : ℕ
  pub initial_ub : ℕ
  pub sltn : Solution
  pub found_solution : Bool
  pub prio_fwd : ℕ → ℕ
  pub prio_bwd : ℕ → ℕ
  pub leaves : ℕ
  pub tot_decomposed : ℕ
  pub simple_bounds : ℕ

-- branchingMode > 0
abbrev is_adaptive : ℤ → Bool
is_adaptive (pos zero) = false
is_adaptive (pos (suc n)) = true
is_adaptive (negsuc n) = false

-- `setRoot`
unfoldable pub set_root : Config → (ℕ → ℕ) → Tree → Tree
set_root c perm t =
    let n = c.inst.nb_job in
    let root = new_subproblem n c.memory in
    record t {
      deq =
          record root { schedule = λ i. if ltb i n then perm i else root.schedule i; cost = 0 }
          ∷ t.deq;
    }

-- `take`
unfoldable pub take : Tree → Option (Subproblem × Tree)
take t = elim t.deq [ [] ↦ none | n ∷ rest ↦ some (n, record t { deq = rest }) ]

-- `bound`
unfoldable pub bound : Subproblem → ℕ → Bool
bound n best = ltb n.cost best

-- `improve`
unfoldable pub improve : Subproblem → Tree → Tree
improve n t = record t {
  local_best = n.cost;
  sltn = (update (some n.schedule) n.cost t.sltn).0;
  found_solution = true;
}

-- A child with its cost.
abbrev pub costed : Subproblem → ℕ → Side → ℕ → Subproblem
costed n j side cost = record (child n j side) { cost = cost }

-- The loop of `decompose_fast` over the children at the front: `k` cells from `j` on.
pub begin_children : ℕ → ℕ → Subproblem → (ℕ → ℕ) → ℕ → List Subproblem
begin_children zero j n costs best = []
begin_children (suc k) j n costs best =
    let cost = costs (n.schedule j) in
    let rest = begin_children k (suc j) n costs best in
    if ltb cost best then costed n j begin_order cost ∷ rest else rest

-- The loop over the children at the back: cells `front + k - 1` down to `front`.
pub end_children : ℕ → Subproblem → (ℕ → ℕ) → ℕ → List Subproblem
end_children zero n costs best = []
end_children (suc k) n costs best =
    let j = n.front + k in
    let cost = costs (n.schedule j) in
    let rest = end_children k n costs best in
    if ltb cost best then costed n j end_order cost ∷ rest else rest

-- The two leaves of a simple node.
pub simple_children : Instance → Subproblem → List Subproblem
simple_children inst n =
    let first = child n n.front begin_order in
    let second = child n (suc n.front) begin_order in
    record first { cost = eval_solution inst first.schedule }
    ∷ record second { cost = eval_solution inst second.schedule }
    ∷ []

-- The children on one side.
pub side_children : Side → Subproblem → (ℕ → ℕ) → (ℕ → ℕ) → ℕ → List Subproblem
unfolding begin_children end_children
side_children begin_order n cb ce best = begin_children (n.limit2 - n.front) n.front n cb best
side_children end_order n cb ce best = end_children (n.limit2 - n.front) n ce best

-- `decompose_fast`: the children and the tree, whose priorities the bound overwrites
unfoldable pub decompose_fast : Config → Subproblem → Tree → List Subproblem × Tree
unfolding simple_children side_children
decompose_fast c n t =
    let r =
      bound_children c.inst (is_adaptive c.branching_mode) n.schedule n.front n.limit2 (record {
        costs_begin = c.memory;
        costs_end = c.memory;
        prio_begin = t.prio_fwd;
        prio_end = t.prio_bwd;
      }) in
    let ub = if c.single_node then t.local_best else t.initial_ub in
    let side = choose_branching c.branching_mode c.inst.nb_job ub r.costs_begin r.costs_end in
    if simple n then (simple_children c.inst n, t) else (
      side_children side n r.costs_begin r.costs_end t.local_best,
      record t { prio_fwd = r.prio_begin; prio_bwd = r.prio_end },
    )

-- `insert`: the nodes are pushed in reverse, so they stand at the front in their order
unfoldable pub insert : List Subproblem → ℕ → List Subproblem → List Subproblem
insert [] best pool = pool
insert (n ∷ ns) best pool =
    let rest = insert ns best pool in if ltb n.cost best then n ∷ rest else rest

-- What `next` does with the node that it took.
unfoldable pub explore : Config → Subproblem → Tree → Tree
unfolding bound improve decompose_fast insert
explore c n t = if bound n t.local_best then (if leaf n then at_leaf else branched) else t
  where
    at_leaf : Tree
    at_leaf = improve n (record t { leaves = suc t.leaves })

    branched : Tree
    branched =
        let (ns, u) = decompose_fast c n t in
        record u {
          deq = insert ns u.local_best u.deq;
          tot_decomposed = suc u.tot_decomposed;
          simple_bounds = u.simple_bounds + 2 * (n.limit2 - n.front);
        }

-- `next`: the tree, and whether a node was taken
unfoldable pub next : Config → Tree → Tree × Bool
unfolding take explore
next c t =
    let t' = record t { local_best = get_best t.sltn t.local_best } in
    elim (take t') [ none ↦ (t', false) | some (n, rest) ↦ (explore c n rest, true) ]

-- The driver `while (next());`, on fuel; `none` means that the fuel ran out.
unfoldable pub run : ℕ → Config → Tree → Option Tree
unfolding next
run zero c t = none
run (suc fuel) c t =
    let (t', more) = next c t in let rest = run fuel c t' in if more then rest else some t'
