-- ===== src/Branching/Laws.antt =====
-- `chooseChildrenSet` and `chooseBranching`: the two functions that choose a set of children, with signed differences in the one and with the
-- two parts of a difference in the other, choose the same.
use pbbperm.Base.{ℕ, ◌≤◌, ◌<◌, ◌≡◌, ap, ap₂, ◌∙◌, arith, pos}
use pbbperm.Branching.{least_positive, max_sum, min_branch, min_min, dir_of, choose_children_set}
use pbbperm.Branching.Signed.{
  sum_loop, elim_loop, min_loop, count_loop, by_sum, by_elim, by_min, choose_branching,
}
use pbbperm.Branching.Loops.{
  diff, sum_loop-diff, elim_loop-diff, count_loop-diff, min_loop-least_positive, by_sum-diff,
  by_elim-diff, by_min-diff, zero-diff,
}

by_sum-max_sum :
    (size : ℕ) (cb ce : ℕ → ℕ) → by_sum (sum_loop cb ce size 0 (pos 0)) ≡ max_sum size cb ce
unfolding max_sum
by_sum-max_sum size cb ce =
    ap (λ z. by_sum (sum_loop cb ce size 0 z)) zero-diff
    ∙ ap by_sum (sum_loop-diff cb ce size 0 0 0)
    ∙ by_sum-diff _ _

by_elim-min_branch :
    (size ub : ℕ) (cb ce : ℕ → ℕ)
    → by_elim (elim_loop ub cb ce size 0 (pos 0) (pos 0)) ≡ min_branch size ub cb ce
unfolding min_branch by_elim
by_elim-min_branch size ub cb ce =
    ap₂ (λ z w. by_elim (elim_loop ub cb ce size 0 z w)) zero-diff zero-diff
    ∙ ap by_elim (elim_loop-diff ub cb ce size 0 0 0 0 0)
    ∙ by_elim-diff _ _ _ _

by_min-min_min :
    (size ub : ℕ) (cb ce : ℕ → ℕ)
    → by_min (count_loop (min_loop cb ce size 0 2147483647) ub cb ce size 0 (pos 0) (pos 0))
      ≡ min_min size ub cb ce
unfolding min_min by_min
by_min-min_min size ub cb ce =
    ap₂ (λ z w. by_min (count_loop (min_loop cb ce size 0 2147483647) ub cb ce size 0 z w))
      zero-diff zero-diff
    ∙ ap (λ l. by_min (count_loop l ub cb ce size 0 (diff 0 0) (diff 0 0)))
        (min_loop-least_positive cb ce size 0 2147483647)
    ∙ ap by_min (count_loop-diff (least_positive cb ce size 0 2147483647) ub cb ce size 0 0 0 0 0)
    ∙ by_min-diff _ _ _ _

-- In the modes 1 to 3 `chooseChildrenSet` and `chooseBranching` choose the same side, whatever the
-- line.
pub choose_children_set-choose_branching :
    (mode line size ub : ℕ) (cb ce : ℕ → ℕ)
    → 1 ≤ mode
    → mode < 4
    → choose_children_set (pos mode) line size ub cb ce
      ≡ dir_of (choose_branching (pos mode) size ub cb ce)
unfolding choose_children_set choose_branching
choose_children_set-choose_branching mode line size ub cb ce lo hi = ground (
  arith,
  by_sum-max_sum size cb ce,
  by_elim-min_branch size ub cb ce,
  by_min-min_min size ub cb ce,
)
