-- ===== src/Tree/Measure.antt =====
-- A bound on the nodes that a pool still has to hand out.
use pbbperm.Base.{ℕ, zero, suc, ◌+◌, ◌-◌, ◌*◌, ◌≤◌, ◌<◌, ◌≡◌, refl, ap, List, [], ◌∷◌, arith}
use pbbperm.Flowshop.Vectors.{Instance}
use pbbperm.Subproblem.{Subproblem, child, begin_order, end_order}
use pbbperm.Tree.{begin_children, end_children, simple_children, insert}

-- The nodes of a full tree below a node with `n` open jobs, itself included.
pub weight : ℕ → ℕ
weight zero = 1
weight (suc n) = suc (suc n * weight n)

pub weight-suc : (n : ℕ) → weight (suc n) ≡ suc (suc n * weight n)
unfolding weight
weight-suc n = refl

pub weight_zero : weight 0 ≡ 1
unfolding weight
weight_zero = refl

pub weight_pos : (n : ℕ) → 0 < weight n
unfolding weight
weight_pos zero = omega arith
weight_pos (suc n) = omega arith

abbrev pub open_count : Subproblem → ℕ
open_count n = n.limit2 - n.front

pub total : List Subproblem → ℕ
total [] = 0
total (n ∷ ns) = weight (open_count n) + total ns

pub total-nil : total [] ≡ 0
unfolding total
total-nil = refl

pub total-cons :
    (n : Subproblem) (ns : List Subproblem) → total (n ∷ ns) ≡ weight (open_count n) + total ns
unfolding total
total-cons n ns = refl

pub total-insert-le :
    (ns : List Subproblem) (best : ℕ) (pool : List Subproblem)
    → total (insert ns best pool) ≤ total ns + total pool
unfolding total insert
total-insert-le [] best pool = omega arith
total-insert-le (n ∷ ns) best pool = ground (arith, total-insert-le ns best pool)

module _ (n : Subproblem) (costs : ℕ → ℕ) (best w : ℕ) (e : open_count n ≡ suc w) where
  begin_open : (i : ℕ) → weight (open_count (child n i begin_order)) ≡ weight w
  unfolding child
  begin_open i = ap weight (omega arith)

  end_open : (i : ℕ) → weight (open_count (child n i end_order)) ≡ weight w
  unfolding child
  end_open i = ap weight (omega arith)

  pub total-begin_children-le : (k j : ℕ) → total (begin_children k j n costs best) ≤ k * weight w
  unfolding total begin_children
  total-begin_children-le zero j = omega arith
  total-begin_children-le (suc k) j =
      ground (arith, begin_open j, total-begin_children-le k (suc j))

  pub total-end_children-le : (k : ℕ) → total (end_children k n costs best) ≤ k * weight w
  unfolding total end_children
  total-end_children-le zero = omega arith
  total-end_children-le (suc k) = ground (arith, end_open (n.front + k), total-end_children-le k)

  pub total-simple_children : (inst : Instance) → total (simple_children inst n) ≡ 2 * weight w
  unfolding total simple_children
  total-simple_children inst = omega (arith, begin_open n.front, begin_open (suc n.front))
