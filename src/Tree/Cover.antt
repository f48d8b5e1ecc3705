-- ===== src/Tree/Cover.antt =====
-- Valid nodes, and what decomposing a node keeps.
use mathlib.Core.List.{mem-cons, mem-cons_self, not-mem-nil, append_assoc, perm_append_singleton}
use mathlib.Core.List.Perm
use mathlib.Core.Logic.Or
use native.Mathlib.Nat.{le_of_eq, ℕ_set}
use pbbperm.Base.{
  ℕ, suc, ◌+◌, ◌-◌, ◌≤◌, ◌<◌, ◌≡◌, refl, ap, ap₂, ◌∙◌, sym, subst, List, [], ◌∷◌, ◌++◌, Perm, arith,
  slice, slice_split, All,
}
use pbbperm.Flowshop.Vectors.{Instance, makespan, eval_solution}
use pbbperm.Flowshop.Lists.{eval_solution-makespan}
use pbbperm.Flowshop.Admissible.{IsJob, IsNode}
use pbbperm.Subproblem.{Subproblem, begin_order, end_order, child}
use pbbperm.Subproblem.Child.{fixed_front, open_jobs, fixed_back}
use pbbperm.Tree.Below.{Below, Below-child_begin, Below-child_end}

-- The jobs of a node's array, in order.
abbrev pub jobs_of : Subproblem → List ℕ
jobs_of n = slice n.size 0 n.schedule

own_shape :
    (n : Subproblem)
    → n.front ≤ n.limit2
    → n.limit2 ≤ n.size
    → jobs_of n ≡ fixed_front n ++ (open_jobs n ++ fixed_back n)
own_shape n h h' =
    let k = n.limit2 - n.front in
    let m = n.size - n.limit2 in
    let total : n.size ≡ n.front + (k + m) = omega arith in
    let there : n.front + k ≡ n.limit2 = omega arith in
    ap (λ t. slice t 0 n.schedule) total
    ∙ slice_split n.front (k + m) 0 n.schedule
    ∙ ap (λ t. fixed_front n ++ slice (k + m) t n.schedule) (omega arith)
    ∙ ap (◌++◌ (fixed_front n)) (slice_split k m n.front n.schedule)
    ∙ ap (λ t. fixed_front n ++ (open_jobs n ++ slice m t n.schedule)) there

-- A node's array is a leaf below it.
pub Below-own : (n : Subproblem) → n.front ≤ n.limit2 → n.limit2 ≤ n.size → Below n (jobs_of n)
Below-own n h h' = record {
  middle = open_jobs n;
  shape = own_shape n h h';
  order = Perm.refl (open_jobs n);
}

perm-singleton : (xs : List ℕ) (x : ℕ) → Perm xs (x ∷ []) → xs ≡ x ∷ []
perm-singleton [] x p = Perm.nil-eq p
perm-singleton (y ∷ ys) x p =
    let same : y ≡ x =
      Or.elim (ℕ_set y x) (mem-cons.0 ((Perm.mem_iff p).0 mem-cons_self)) (λ e. e)
        (λ m. absurd (not-mem-nil m)) in
    ap₂ ◌∷◌ same (Perm.eq-nil (Perm.cons_inv (Perm.trans p (Perm.cons' (sym same) Perm.nil))))

-- With one open job it is the only one.
pub Below-leaf :
    (n : Subproblem) (jobs : List ℕ)
    → n.limit2 ≡ suc n.front
    → n.limit2 ≤ n.size
    → Below n jobs
    → jobs ≡ jobs_of n
Below-leaf n jobs e h b =
    b.shape
    ∙ ap (λ t. fixed_front n ++ (t ++ fixed_back n)) only
    ∙ sym (own_shape n (omega arith) h)
  where
    only : b.middle ≡ open_jobs n
    only =
        let one : n.limit2 - n.front ≡ 1 = omega arith in
        let cells : open_jobs n ≡ n.schedule n.front ∷ [] =
          ap (λ t. slice t n.front n.schedule) one ∙ unfold slice in refl in
        perm-singleton b.middle (n.schedule n.front) (subst (Perm b.middle) cells b.order)
        ∙ sym cells

module _ (inst : Instance) (root : List ℕ) where
  -- A node of the search below `root`: it has an open job, its cost is at most the makespan of every
  -- leaf below it, and is that of its own array if only one job is open.
  pub record IsValid (n : Subproblem) : Type 0 where
    pub size : n.size ≡ inst.nb_job
    pub opens : n.front < n.limit2
    pub room : n.limit2 ≤ n.size
    pub under : (jobs : List ℕ) → Below n jobs → Perm jobs root
    pub bound : (jobs : List ℕ) → All (IsJob inst) jobs → Below n jobs → n.cost ≤ makespan inst jobs
    pub exact : n.limit2 ≡ suc n.front → n.cost ≡ makespan inst (jobs_of n)

-- A node's cost does not matter for what is below it.
pub recost :
    (n : Subproblem) (c : ℕ) (jobs : List ℕ) → Below n jobs → Below (record n { cost = c }) jobs
recost n c jobs b = record { middle = b.middle; shape = b.shape; order = b.order }

pub uncost :
    (n : Subproblem) (c : ℕ) (jobs : List ℕ) → Below (record n { cost = c }) jobs → Below n jobs
uncost n c jobs b = record { middle = b.middle; shape = b.shape; order = b.order }

module _ (inst : Instance) (root : List ℕ) (hm : 0 < inst.nb_machines) where
  module _ (n : Subproblem) (v : IsValid inst root n) where
    pub node : IsNode inst n.front n.limit2
    node =
        let a = v.opens in
        let b = v.room in
        let e = v.size in record { open_cells = omega arith; in_range = omega arith }

    -- Below a child is below the node.
    pub child_begin-Below :
        (i : ℕ) (jobs : List ℕ)
        → n.front ≤ i
        → i < n.limit2
        → Below (child n i begin_order) jobs
        → Below n jobs
    child_begin-Below i jobs lo hi b =
        let (p, e) = Below-child_begin n i jobs lo hi b in
        record { middle = n.schedule i ∷ b.middle; shape = e; order = p }

    pub child_end-Below :
        (i : ℕ) (jobs : List ℕ)
        → n.front ≤ i
        → i < n.limit2
        → Below (child n i end_order) jobs
        → Below n jobs
    child_end-Below i jobs lo hi b =
        let (p, e) = Below-child_end n i jobs lo hi v.room b in
        record {
          middle = b.middle ++ n.schedule i ∷ [];
          shape =
              e
              ∙ ap (◌++◌ (fixed_front n))
                  (sym (append_assoc b.middle (n.schedule i ∷ []) (fixed_back n)));
          order = Perm.trans (perm_append_singleton (n.schedule i) b.middle) p;
        }

    -- The two leaves of a simple node.
    pub leaf_child-IsValid :
        (i : ℕ)
        → n.front ≤ i
        → i < n.limit2
        → n.limit2 ≡ n.front + 2
        → let c = child n i begin_order in
          IsValid inst root (record c { cost = eval_solution inst c.schedule })
    unfolding child
    leaf_child-IsValid i lo hi two =
        let c = child n i begin_order in
        let cost = eval_solution inst c.schedule in
        let value : cost ≡ makespan inst (jobs_of c) =
          eval_solution-makespan inst c.schedule
          ∙ ap (λ t. makespan inst (slice t 0 c.schedule)) (sym v.size) in
        let room = v.room in
        let one : n.limit2 ≡ suc (suc n.front) = omega arith in
        record {
          size = v.size;
          opens = omega arith;
          room = v.room;
          under = λ jobs b. v.under jobs (child_begin-Below i jobs lo hi (uncost c cost jobs b));
          bound = λ jobs ok b. le_of_eq (
              value ∙ ap (makespan inst) (sym (Below-leaf c jobs one room (uncost c cost jobs b))));
          exact = λ e. value;
        }
