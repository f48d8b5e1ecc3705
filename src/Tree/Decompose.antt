-- ===== src/Tree/Decompose.antt =====
-- What `decompose_fast` does for the search.
use pbbperm.Base.{
  ℕ, zero, suc, ◌+◌, ◌-◌, ◌*◌, ◌≤◌, ◌<◌, ◌≡◌, refl, ap, sym, subst, ◌⊎◌, inl, inr, true, false,
  List, arith, All, Any, Bool-cases, ℕ_discrete, ◌==◌, ℤ, pos, negsuc,
}
use pbbperm.Flowshop.Vectors.{makespan}
use pbbperm.Flowshop.Weak.{Children}
use pbbperm.Flowshop.Admissible.{IsJob}
use pbbperm.Subproblem.{Subproblem, Side, begin_order, end_order, child, simple, leaf}
use pbbperm.Branching.Signed.{choose_branching}
use pbbperm.Tree.{
  Config, Tree, is_adaptive, begin_children, end_children, simple_children, side_children,
  decompose_fast,
}
use pbbperm.Tree.Below.{Below, begin_cover, end_cover}
use pbbperm.Tree.Cover.{IsValid, recost, leaf_child-IsValid}
use pbbperm.Tree.Branches.{
  Bounds, bound_children-Bounds, begin_children-IsValid, end_children-IsValid, begin_children-cover,
  end_children-cover,
}
use pbbperm.Tree.Measure.{
  weight, weight-suc, open_count, total, total-begin_children-le, total-end_children-le,
  total-simple_children,
}

module _ (c : Config) (root : List ℕ) (hm : 0 < c.inst.nb_machines) (n : Subproblem)
    (v : IsValid c.inst root n) where
  -- What the children of a node have to offer: they are valid, no leaf below the node is lost unless
  -- it is no better than `best`, and they weigh less than the node.
  pub record IsSplit (best : ℕ) (ns : List Subproblem) : Type 0 where
    pub valid : All (IsValid c.inst root) ns
    pub cover :
        (jobs : List ℕ)
        → All (IsJob c.inst) jobs
        → Below n jobs
        → (best ≤ makespan c.inst jobs) ⊎ Any (λ m. Below m jobs) ns
    pub lighter : total ns < weight (open_count n)

  simple_children-IsSplit :
      (best : ℕ) → n.limit2 ≡ n.front + 2 → IsSplit best (simple_children c.inst n)
  unfolding simple_children
  simple_children-IsSplit best e =
      let two : open_count n ≡ suc 1 = omega arith in
      record {
        valid = (
          leaf_child-IsValid c.inst root hm n v n.front (omega arith) (omega arith) e,
          (leaf_child-IsValid c.inst root hm n v (suc n.front) (omega arith) (omega arith) e, tt),
        );
        cover = λ jobs ok b.
            let (i, lo, hi, b') = begin_cover n jobs v.opens b in
            inr (elim (ℕ_discrete n.front i) [
              | yes first ↦ inl (
                  recost (child n n.front begin_order) _ jobs
                    (subst (λ t. Below (child n t begin_order) jobs) (sym first) b'))
              | no second ↦
                  let there : i ≡ suc n.front = omega arith in
                  inr (
                    inl (
                      recost (child n (suc n.front) begin_order) _ jobs
                        (subst (λ t. Below (child n t begin_order) jobs) there b')))
            ]);
        lighter = omega (
          arith,
          ap weight two,
          weight-suc 1,
          total-simple_children n (λ i. 0) best 1 two c.inst,
        );
      }

  begin_children-IsSplit :
      (best : ℕ) (costs : ℕ → ℕ)
      → n.front + 3 ≤ n.limit2
      → Bounds c.inst root hm n v begin_order costs
      → IsSplit best (begin_children (n.limit2 - n.front) n.front n costs best)
  begin_children-IsSplit best costs many h =
      let w = n.limit2 - suc n.front in
      let e : open_count n ≡ suc w = omega arith in
      let k = n.limit2 - n.front in
      record {
        valid =
            begin_children-IsValid c.inst root hm n v many costs best k n.front (omega arith)
              (omega arith) h;
        cover = λ jobs ok b.
            let (i, lo, hi, b') = begin_cover n jobs v.opens b in
            begin_children-cover c.inst root hm n v costs best k n.front i jobs (omega arith)
              (omega arith) h ok lo (omega arith) b';
        lighter = omega (
          arith,
          ap weight e,
          ap (λ t. t * weight w) e,
          weight-suc w,
          total-begin_children-le n costs best w e k n.front,
        );
      }

  end_children-IsSplit :
      (best : ℕ) (costs : ℕ → ℕ)
      → n.front + 3 ≤ n.limit2
      → Bounds c.inst root hm n v end_order costs
      → IsSplit best (end_children (n.limit2 - n.front) n costs best)
  end_children-IsSplit best costs many h =
      let w = n.limit2 - suc n.front in
      let e : open_count n ≡ suc w = omega arith in
      let k = n.limit2 - n.front in
      record {
        valid = end_children-IsValid c.inst root hm n v many costs best k (omega arith) h;
        cover = λ jobs ok b.
            let (i, lo, hi, b') = end_cover n jobs v.opens v.room b in
            end_children-cover c.inst root hm n v costs best k i jobs (omega arith) h ok lo
              (omega arith) b';
        lighter = omega (
          arith,
          ap weight e,
          ap (λ t. t * weight w) e,
          weight-suc w,
          total-end_children-le n costs best w e k,
        );
      }

  -- Only an adaptive mode branches at the back.
  choose_branching-is_adaptive :
      (mode : ℤ) (size ub : ℕ) (cb ce : ℕ → ℕ)
      → choose_branching mode size ub cb ce ≡ end_order
      → is_adaptive mode ≡ true
  unfolding choose_branching
  choose_branching-is_adaptive (pos zero) size ub cb ce e = ground arith
  choose_branching-is_adaptive (pos (suc m)) size ub cb ce e = refl
  choose_branching-is_adaptive (negsuc m) size ub cb ce e = cc

  side_children-IsSplit :
      (best : ℕ) (side : Side) (cb ce : ℕ → ℕ)
      → n.front + 3 ≤ n.limit2
      → Bounds c.inst root hm n v begin_order cb
      → (side ≡ end_order → Bounds c.inst root hm n v end_order ce)
      → IsSplit best (side_children side n cb ce best)
  unfolding side_children
  side_children-IsSplit best begin_order cb ce many h h' = begin_children-IsSplit best cb many h
  side_children-IsSplit best end_order cb ce many h h' = end_children-IsSplit best ce many (h' refl)

  -- `decompose_fast` of a valid node that is no leaf yields children that split it, and leaves the
  -- pool, the incumbent and the best cost as they are.
  pub decompose_fast-IsSplit :
      (t : Tree)
      → leaf n ≡ false
      → IsSplit t.local_best (decompose_fast c n t).0
        × ((decompose_fast c n t).1.deq ≡ t.deq)
        × ((decompose_fast c n t).1.sltn ≡ t.sltn)
        × ((decompose_fast c n t).1.local_best ≡ t.local_best)
  unfolding decompose_fast leaf simple
  decompose_fast-IsSplit t not_leaf = elim (Bool-cases (n.limit2 == n.front + 2)) [
    | inl e ↦ rw e (simple_children-IsSplit t.local_best (ground arith), refl, refl, refl)
    | inr e ↦
        let opens = v.opens in
        let (h, h') =
          bound_children-Bounds c.inst root hm n v (is_adaptive c.branching_mode) start in
        rw e (
          side_children-IsSplit t.local_best _ _ _ (ground arith) h
              (λ at_end. h' (choose_branching-is_adaptive c.branching_mode _ _ _ _ at_end)),
          refl,
          refl,
          refl,
        )
  ]
    where
      start : Children c.inst
      start = record {
        costs_begin = c.memory;
        costs_end = c.memory;
        prio_begin = t.prio_fwd;
        prio_end = t.prio_bwd;
      }

  -- Of a valid node that is no leaf, `decompose_fast` loses no leaf below the node unless it is no
  -- better than the best cost: each order of jobs below the node costs at least the best cost, or is
  -- below one of the children.
  pub decompose_fast-cover :
      (t : Tree) (jobs : List ℕ)
      → leaf n ≡ false
      → All (IsJob c.inst) jobs
      → Below n jobs
      → (t.local_best ≤ makespan c.inst jobs) ⊎ Any (λ m. Below m jobs) (decompose_fast c n t).0
  decompose_fast-cover t jobs not_leaf ok b = (decompose_fast-IsSplit t not_leaf).0.cover jobs ok b
