-- ===== src/Tree/Branches.antt =====
-- The children of a node with at least three open jobs.
use native.Mathlib.Nat.{le_refl}
use pbbperm.Base.{
  ℕ, zero, suc, ◌+◌, ◌-◌, ◌≤◌, ◌<◌, ◌≡◌, sym, subst, ◌⊎◌, inl, inr, Bool, true, List, ◌∷◌, ◌++◌,
  arith, ltb, All, Any, Bool-cases, ℕ_discrete, slice,
}
use pbbperm.Flowshop.Vectors.{Instance, makespan}
use pbbperm.Flowshop.Weak.{Children, bound_children}
use pbbperm.Flowshop.Admissible.{IsJob, IsNode}
use pbbperm.Flowshop.Children.{bound_children_begin-pruning, bound_children_end-pruning}
use pbbperm.Subproblem.{Subproblem, Side, begin_order, end_order, child}
use pbbperm.Tree.{begin_children, end_children, costed}
use pbbperm.Tree.Below.{Below, Below-child_begin, Below-child_end}
use pbbperm.Tree.Cover.{IsValid, recost, uncost, node, child_begin-Below, child_end-Below}

module _ (inst : Instance) (root : List ℕ) (hm : 0 < inst.nb_machines) (n : Subproblem)
    (v : IsValid inst root n) where
  -- The costs under the open jobs bound the leaves below the children on one side.
  abbrev pub Bounds : Side → (ℕ → ℕ) → Type 0
  Bounds side costs =
      (i : ℕ) (jobs : List ℕ)
      → n.front ≤ i
      → i < n.limit2
      → All (IsJob inst) jobs
      → Below (child n i side) jobs
      → costs (n.schedule i) ≤ makespan inst jobs

  pub bound_children-Bounds :
      (both : Bool) (c : Children inst)
      → let r = bound_children inst both n.schedule n.front n.limit2 c in
        Bounds begin_order r.costs_begin × (both ≡ true → Bounds end_order r.costs_end)
  bound_children-Bounds both c = (
    λ i jobs lo hi ok b.
        let (p, e) = Below-child_begin n i jobs lo hi b in
        bound_children_begin-pruning inst both n.schedule jobs n.front n.limit2 c i _ b.middle hm nd
          lo hi p ok
          (subst
            (λ t.
              jobs
              ≡ slice n.front 0 n.schedule
                ++ n.schedule i ∷ (b.middle ++ slice (t - n.limit2) n.limit2 n.schedule))
            v.size e)
          (le_refl _),
    λ asked i jobs lo hi ok b.
        let (p, e) = Below-child_end n i jobs lo hi v.room b in
        rw asked (
          bound_children_end-pruning inst n.schedule jobs n.front n.limit2 c i _ b.middle hm nd lo
            hi p ok
            (subst
              (λ t.
                jobs
                ≡ slice n.front 0 n.schedule
                  ++ (b.middle ++ n.schedule i ∷ slice (t - n.limit2) n.limit2 n.schedule))
              v.size e)
            (le_refl _)),
  )
    where
      nd : IsNode inst n.front n.limit2
      nd = node inst root hm n v

  module _ (many : n.front + 3 ≤ n.limit2) (costs : ℕ → ℕ) (best : ℕ) where
    costed_begin-IsValid :
        (i : ℕ)
        → n.front ≤ i
        → i < n.limit2
        → Bounds begin_order costs
        → IsValid inst root (costed n i begin_order (costs (n.schedule i)))
    unfolding child
    costed_begin-IsValid i lo hi h =
        let c = child n i begin_order in
        let cost = costs (n.schedule i) in
        record {
          size = v.size;
          opens = omega arith;
          room = v.room;
          under = λ jobs b.
              v.under jobs (child_begin-Below inst root hm n v i jobs lo hi (uncost c cost jobs b));
          bound = λ jobs ok b. h i jobs lo hi ok (uncost c cost jobs b);
          exact = λ e. absurd (omega arith);
        }

    costed_end-IsValid :
        (i : ℕ)
        → n.front ≤ i
        → i < n.limit2
        → Bounds end_order costs
        → IsValid inst root (costed n i end_order (costs (n.schedule i)))
    unfolding child
    costed_end-IsValid i lo hi h =
        let c = child n i end_order in
        let cost = costs (n.schedule i) in
        let room = v.room in
        record {
          size = v.size;
          opens = omega arith;
          room = omega arith;
          under = λ jobs b.
              v.under jobs (child_end-Below inst root hm n v i jobs lo hi (uncost c cost jobs b));
          bound = λ jobs ok b. h i jobs lo hi ok (uncost c cost jobs b);
          exact = λ e. absurd (omega arith);
        }

    pub begin_children-IsValid :
        (k j : ℕ)
        → n.front ≤ j
        → j + k ≤ n.limit2
        → Bounds begin_order costs
        → All (IsValid inst root) (begin_children k j n costs best)
    unfolding begin_children
    begin_children-IsValid zero j lo hi h = tt
    begin_children-IsValid (suc k) j lo hi h = elim (Bool-cases (ltb (costs (n.schedule j)) best)) [
      | inl e ↦ rw e (
        costed_begin-IsValid j lo (omega arith) h,
        begin_children-IsValid k (suc j) (omega arith) (omega arith) h,
      )
      | inr e ↦ rw e (begin_children-IsValid k (suc j) (omega arith) (omega arith) h)
    ]

    pub end_children-IsValid :
        (k : ℕ)
        → n.front + k ≤ n.limit2
        → Bounds end_order costs
        → All (IsValid inst root) (end_children k n costs best)
    unfolding end_children
    end_children-IsValid zero hi h = tt
    end_children-IsValid (suc k) hi h =
        elim (Bool-cases (ltb (costs (n.schedule (n.front + k))) best)) [
          | inl e ↦ rw e (
            costed_end-IsValid (n.front + k) (omega arith) (omega arith) h,
            end_children-IsValid k (omega arith) h,
          )
          | inr e ↦ rw e (end_children-IsValid k (omega arith) h)
        ]

  -- A leaf below a child is no better than `best`, or below one of the children that are kept.
  pub begin_children-cover :
      (costs : ℕ → ℕ) (best k j i : ℕ) (jobs : List ℕ)
      → n.front ≤ j
      → j + k ≤ n.limit2
      → Bounds begin_order costs
      → All (IsJob inst) jobs
      → j ≤ i
      → i < j + k
      → Below (child n i begin_order) jobs
      → (best ≤ makespan inst jobs) ⊎ Any (λ m. Below m jobs) (begin_children k j n costs best)
  unfolding begin_children
  begin_children-cover costs best zero j i jobs lo hi h ok li ui b = absurd (omega arith)
  begin_children-cover costs best (suc k) j i jobs lo hi h ok li ui b =
      let rest = λ (later : ¬ (j ≡ i)).
        begin_children-cover costs best k (suc j) i jobs (omega arith) (omega arith) h ok
          (omega arith) (omega arith) b in
      elim (Bool-cases (ltb (costs (n.schedule j)) best)) [
        | inl e ↦ rw e (elim (ℕ_discrete j i) [
          | yes here ↦ inr (
              inl (
                recost (child n j begin_order) (costs (n.schedule j)) jobs
                  (subst (λ t. Below (child n t begin_order) jobs) (sym here) b)))
          | no later ↦ elim (rest later) [ inl w ↦ inl w | inr a ↦ inr (inr a) ]
        ])
        | inr e ↦ rw e (elim (ℕ_discrete j i) [
          | yes here ↦
              let worse =
                h j jobs lo (omega arith) ok
                  (subst (λ t. Below (child n t begin_order) jobs) (sym here) b) in
              inl (ground arith)
          | no later ↦ rest later
        ])
      ]

  pub end_children-cover :
      (costs : ℕ → ℕ) (best k i : ℕ) (jobs : List ℕ)
      → n.front + k ≤ n.limit2
      → Bounds end_order costs
      → All (IsJob inst) jobs
      → n.front ≤ i
      → i < n.front + k
      → Below (child n i end_order) jobs
      → (best ≤ makespan inst jobs) ⊎ Any (λ m. Below m jobs) (end_children k n costs best)
  unfolding end_children
  end_children-cover costs best zero i jobs hi h ok li ui b = absurd (omega arith)
  end_children-cover costs best (suc k) i jobs hi h ok li ui b =
      let j = n.front + k in
      let rest = λ (later : ¬ (j ≡ i)).
        end_children-cover costs best k i jobs (omega arith) h ok li (omega arith) b in
      elim (Bool-cases (ltb (costs (n.schedule j)) best)) [
        | inl e ↦ rw e (elim (ℕ_discrete j i) [
          | yes here ↦ inr (
              inl (
                recost (child n j end_order) (costs (n.schedule j)) jobs
                  (subst (λ t. Below (child n t end_order) jobs) (sym here) b)))
          | no later ↦ elim (rest later) [ inl w ↦ inl w | inr a ↦ inr (inr a) ]
        ])
        | inr e ↦ rw e (elim (ℕ_discrete j i) [
          | yes here ↦
              let worse =
                h j jobs (omega arith) (omega arith) ok
                  (subst (λ t. Below (child n t end_order) jobs) (sym here) b) in
              inl (ground arith)
          | no later ↦ rest later
        ])
      ]
