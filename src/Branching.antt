-- ===== src/Branching.antt =====
-- The choice between the two sets of children of a node: `chooseChildrenSet` of
-- multicore/src/ivm_bound.cpp. A signed accumulator of the code is kept as its positive and its
-- negative part. `chooseBranching` of multicoreLL/src/tree.cpp is in Signed.
pub mod Signed
pub mod Loops
pub mod Laws
use pbbperm.Base.{
  ℕ, zero, suc, ◌+◌, ◌%◌, Bool, true, false, ◌&&◌, ltb, leb, ◌==◌, if◌then◌else◌, ℤ, pos, negsuc,
}
use pbbperm.Subproblem.{Side, begin_order, end_order}

-- The sum, over the cells below `n`, of the entries that pass the test.
unfoldable pub sum_if : (ℕ → Bool) → (ℕ → ℕ) → ℕ → ℕ → ℕ → ℕ
sum_if test a zero i sum = sum
sum_if test a (suc n) i sum = sum_if test a n (suc i) (if test (a i) then sum + a i else sum)

-- How many of them pass the test.
unfoldable pub count_if : (ℕ → Bool) → (ℕ → ℕ) → ℕ → ℕ → ℕ → ℕ
count_if test a zero i count = count
count_if test a (suc n) i count =
    count_if test a n (suc i) (if test (a i) then suc count else count)

-- The smaller of `least` and a positive entry.
abbrev lower : ℕ → ℕ → ℕ
lower x least = if ltb x least && ltb 0 x then x else least

-- The loop of case 3 that looks for the least positive entry of both arrays.
unfoldable pub least_positive : (ℕ → ℕ) → (ℕ → ℕ) → ℕ → ℕ → ℕ → ℕ
least_positive cb ce zero i least = least
least_positive cb ce (suc n) i least =
    least_positive cb ce n (suc i) (lower (ce i) (lower (cb i) least))

-- Case 1, MaxSum: the larger sum of bounds, in a tie the front.
unfoldable pub max_sum : ℕ → (ℕ → ℕ) → (ℕ → ℕ) → Side
unfolding sum_if
max_sum size cb ce =
    if ltb (sum_if (λ x. true) cb size 0 0) (sum_if (λ x. true) ce size 0 0)
    then end_order
    else begin_order

-- Case 2, MinBranch: more children that reach `ub`, in a tie the larger sum of the others, and then
-- the front.
unfoldable pub min_branch : ℕ → ℕ → (ℕ → ℕ) → (ℕ → ℕ) → Side
unfolding sum_if count_if
min_branch size ub cb ce =
    let pruned = count_if (λ x. leb ub x) cb size 0 0 in
    let pruned' = count_if (λ x. leb ub x) ce size 0 0 in
    let sum = sum_if (λ x. ltb x ub) cb size 0 0 in
    let sum' = sum_if (λ x. ltb x ub) ce size 0 0 in
    if ltb pruned' pruned
    then begin_order
    else if ltb pruned pruned'
    then end_order
    else if ltb sum sum'
    then end_order
    else begin_order

-- Case 3, MinMin: the side on which the least positive bound occurs less often, in a tie the side
-- with more children that reach `ub`, and then the back.
unfoldable pub min_min : ℕ → ℕ → (ℕ → ℕ) → (ℕ → ℕ) → Side
unfolding count_if least_positive
min_min size ub cb ce =
    let least = least_positive cb ce size 0 2147483647 in
    let times = count_if (λ x. x == least) cb size 0 0 in
    let times' = count_if (λ x. x == least) ce size 0 0 in
    let pruned = count_if (λ x. leb ub x) cb size 0 0 in
    let pruned' = count_if (λ x. leb ub x) ce size 0 0 in
    if ltb times' times
    then end_order
    else if ltb times times'
    then begin_order
    else if ltb pruned' pruned
    then begin_order
    else end_order

abbrev pub dir_of : Side → ℤ
dir_of begin_order = pos 0
dir_of end_order = pos 1

-- The `switch` of `chooseChildrenSet`: FRONT is 0, BACK is 1, and -1 is left for a mode without a
-- case.
unfoldable pub choose_children_set : ℤ → ℕ → ℕ → ℕ → (ℕ → ℕ) → (ℕ → ℕ) → ℤ
unfolding max_sum min_branch min_min
choose_children_set (negsuc mode) line size ub cb ce =
    if mode == 2
    then (if line % 2 == 0 then pos 0 else pos 1)
    else if mode == 1
    then pos 1
    else if mode == 0
    then pos 0
    else negsuc 0
choose_children_set (pos mode) line size ub cb ce =
    if mode == 1
    then dir_of (max_sum size cb ce)
    else if mode == 2
    then dir_of (min_branch size ub cb ce)
    else if mode == 3
    then dir_of (min_min size ub cb ce)
    else negsuc 0
