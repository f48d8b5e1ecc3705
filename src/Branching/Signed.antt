-- ===== src/Branching/Signed.antt =====
-- `chooseBranching(int*, int*)` of multicoreLL/src/tree.cpp, on arrays of bounds. The accumulators of
-- its loops are the signed differences of the code.
use pbbperm.Base.{
  ℕ, zero, suc, ◌+◌, ◌-◌, Bool, true, false, ◌&&◌, ltb, leb, ◌==◌, if◌then◌else◌, ℤ, pos, negsuc,
}
use pbbperm.Subproblem.{Side, begin_order, end_order}

-- `z += n`
unfoldable pub plus : ℤ → ℕ → ℤ
plus (pos a) n = pos (a + n)
plus (negsuc a) n = if leb n a then negsuc (a - n) else pos (n - a - 1)

-- `z -= n`
unfoldable pub minus : ℤ → ℕ → ℤ
minus (pos a) n = if leb n a then pos (a - n) else negsuc (n - a - 1)
minus (negsuc a) n = negsuc (a + n)

-- `z < 0`
unfoldable pub below_zero : ℤ → Bool
below_zero (pos a) = false
below_zero (negsuc a) = true

-- `z > 0`
unfoldable pub above_zero : ℤ → Bool
above_zero (pos a) = ltb 0 a
above_zero (negsuc a) = false

-- Case 1: the loop, `n` cells from `i` on
unfoldable pub sum_loop : (ℕ → ℕ) → (ℕ → ℕ) → ℕ → ℕ → ℤ → ℤ
unfolding plus minus
sum_loop cb ce zero i sum = sum
sum_loop cb ce (suc n) i sum = sum_loop cb ce n (suc i) (minus (plus sum (cb i)) (ce i))

-- Case 2: the loop, with `elim` and `sum`
unfoldable pub elim_loop : ℕ → (ℕ → ℕ) → (ℕ → ℕ) → ℕ → ℕ → ℤ → ℤ → ℤ × ℤ
unfolding plus minus
elim_loop ub cb ce zero i pruned sum = (pruned, sum)
elim_loop ub cb ce (suc n) i pruned sum =
    let pruned' = if leb ub (cb i) then plus pruned 1 else pruned in
    let sum' = if leb ub (cb i) then sum else plus sum (cb i) in
    elim_loop ub cb ce n (suc i) (if leb ub (ce i) then minus pruned' 1 else pruned')
      (if leb ub (ce i) then sum' else minus sum' (ce i))

-- Case 3: the loop for the least bound
unfoldable pub min_loop : (ℕ → ℕ) → (ℕ → ℕ) → ℕ → ℕ → ℕ → ℕ
min_loop cb ce zero i least = least
min_loop cb ce (suc n) i least =
    let least' = if ltb (cb i) least && ltb 0 (cb i) then cb i else least in
    min_loop cb ce n (suc i) (if ltb (ce i) least' && ltb 0 (ce i) then ce i else least')

-- Case 3: the loop with `minCount` and `elimCount`
unfoldable pub count_loop : ℕ → ℕ → (ℕ → ℕ) → (ℕ → ℕ) → ℕ → ℕ → ℤ → ℤ → ℤ × ℤ
unfolding plus minus
count_loop least ub cb ce zero i times pruned = (times, pruned)
count_loop least ub cb ce (suc n) i times pruned =
    let times' = if cb i == least then plus times 1 else times in
    let pruned' = if leb ub (cb i) then plus pruned 1 else pruned in
    count_loop least ub cb ce n (suc i) (if ce i == least then minus times' 1 else times')
      (if leb ub (ce i) then minus pruned' 1 else pruned')

-- The ends of the three cases
unfoldable pub by_sum : ℤ → Side
unfolding below_zero
by_sum sum = if below_zero sum then end_order else begin_order

unfoldable pub by_elim : ℤ × ℤ → Side
unfolding above_zero below_zero by_sum
by_elim (pruned, sum) =
    if above_zero pruned then begin_order else (if below_zero pruned then end_order else by_sum sum)

unfoldable pub by_min : ℤ × ℤ → Side
unfolding above_zero below_zero
by_min (times, pruned) =
    if above_zero times
    then end_order
    else (if below_zero times
        then begin_order
        else (if above_zero pruned then begin_order else end_order))

-- `Tree::chooseBranching(int*, int*)`. `ub` is `local_best`, or `initialUB` unless a single node runs.
unfoldable pub choose_branching : ℤ → ℕ → ℕ → (ℕ → ℕ) → (ℕ → ℕ) → Side
unfolding sum_loop elim_loop min_loop count_loop by_sum by_elim by_min
choose_branching (negsuc mode) size ub cb ce = begin_order
choose_branching (pos mode) size ub cb ce =
    if mode == 1
    then by_sum (sum_loop cb ce size 0 (pos 0))
    else if mode == 2
    then by_elim (elim_loop ub cb ce size 0 (pos 0) (pos 0))
    else if mode == 3
    then by_min (count_loop (min_loop cb ce size 0 2147483647) ub cb ce size 0 (pos 0) (pos 0))
    else begin_order
