-- ===== src/Heuristic/Edits.antt =====
-- heuristic/src/fastinsertremove.cpp: `insert`, `blockInsert` and `remove`, which change a partial
-- permutation in its array. The length is a reference argument, returned with the array. What the
-- code prints of a full permutation is left out; it inserts all the same.
use pbbperm.Base.{
  ℕ, zero, suc, ◌+◌, ◌-◌, ◌≤◌, ◌<◌, ◌≡◌, ap, ap₂, ◌∙◌, sym, ◌∷◌, ◌++◌, arith, write, slice,
  slice_congr, slice_shift, slice_split, slice_split_front, ltb, ◌==◌, if◌then◌else◌,
}

-- `n` rounds of `perm[p]=perm[p-1]`, from `p` down
unfoldable pub shift_up : ℕ → ℕ → (ℕ → ℕ) → ℕ → ℕ
shift_up zero p perm = perm
shift_up (suc n) p perm = shift_up n (p - 1) (write perm p (perm (p - 1)))

-- `n` rounds of `perm[p]=perm[p+1]`, from `p` up
unfoldable pub shift_down : ℕ → ℕ → (ℕ → ℕ) → ℕ → ℕ
shift_down zero p perm = perm
shift_down (suc n) p perm = shift_down n (suc p) (write perm p (perm (suc p)))

-- `insert`
unfoldable pub insert : (ℕ → ℕ) → ℕ → ℕ → ℕ → (ℕ → ℕ) × ℕ
unfolding shift_up
insert perm len pos job = (write (shift_up (len - pos) len perm) pos job, suc len)

-- `blockInsert`, `n` rounds from `b` on
unfoldable pub block_insert : ℕ → ℕ → (ℕ → ℕ) → ℕ → ℕ → (ℕ → ℕ) → (ℕ → ℕ) × ℕ
unfolding shift_up
block_insert zero b perm len pos block = (perm, len)
block_insert (suc n) b perm len pos block =
    block_insert n (suc b) (write (shift_up (len - (pos + b)) len perm) (pos + b) (block b))
      (suc len) pos block

-- `remove`, the removed job first
unfoldable pub remove : (ℕ → ℕ) → ℕ → ℕ → ℕ × (ℕ → ℕ) × ℕ
unfolding shift_down
remove perm len pos = (perm pos, write (shift_down (len - 1 - pos) pos perm) (len - 1) 0, len - 1)

shift_up-cell :
    (n low : ℕ) (perm : ℕ → ℕ) (i : ℕ)
    → shift_up n (low + n) perm i
      ≡ (if ltb low i then (if ltb i (suc (low + n)) then perm (i - 1) else perm i) else perm i)
unfolding shift_up
shift_up-cell zero low perm i = ground arith
shift_up-cell (suc n) low perm i =
    let e : low + suc n - 1 ≡ low + n = omega arith in
    ap (λ p. shift_up n p (write perm (low + suc n) (perm (low + suc n - 1))) i) e
    ∙ shift_up-cell n low _ i
    ∙ ground (arith, ap (λ k. perm (k - 1)) {x = low + suc n} {y = i})

shift_down-cell :
    (n p : ℕ) (perm : ℕ → ℕ) (i : ℕ)
    → shift_down n p perm i
      ≡ (if ltb i p then perm i else (if ltb i (p + n) then perm (suc i) else perm i))
unfolding shift_down
shift_down-cell zero p perm i = ground arith
shift_down-cell (suc n) p perm i =
    shift_down-cell n (suc p) _ i ∙ ground (arith, ap (λ k. perm (suc k)) {x = p} {y = i})

-- The cells of the array that `insert` leaves.
pub insert-cell :
    (perm : ℕ → ℕ) (len pos job i : ℕ)
    → pos ≤ len
    → (insert perm len pos job).0 i ≡ (
        if ltb i pos
        then perm i
        else (if i == pos then job else (if ltb i (suc len) then perm (i - 1) else perm i)))
unfolding insert
insert-cell perm len pos job i h =
    let e : pos + (len - pos) ≡ len = omega arith in
    let cell =
      ap (λ p. shift_up (len - pos) p perm i) (sym e) ∙ shift_up-cell (len - pos) pos perm i in
    ground (arith, cell)

-- The cells of the array that `remove` leaves.
pub remove-cell :
    (perm : ℕ → ℕ) (len pos i : ℕ)
    → pos < len
    → (remove perm len pos).1 i ≡ (
        if ltb i pos
        then perm i
        else (if i == len - 1 then 0 else (if ltb i len then perm (suc i) else perm i)))
unfolding remove
remove-cell perm len pos i h = ground (arith, shift_down-cell (len - 1 - pos) pos perm i)

-- The schedule after an insertion: the jobs before the position, the job, and the jobs behind it.
pub insert-slice :
    (perm : ℕ → ℕ) (len pos job : ℕ)
    → pos ≤ len
    → slice (suc len) 0 (insert perm len pos job).0
      ≡ slice pos 0 perm ++ job ∷ slice (len - pos) pos perm
insert-slice perm len pos job h =
    let after = (insert perm len pos job).0 in
    let e : suc len ≡ pos + suc (len - pos) = omega arith in
    ap (λ n. slice n 0 after) e
    ∙ slice_split_front pos (suc (len - pos)) after
    ∙ ap₂ ◌++◌
        (slice_congr pos 0 after perm λ j lo hi. ground (arith, insert-cell perm len pos job j h))
        (unfold slice in
          ap₂ ◌∷◌ (ground (arith, insert-cell perm len pos job pos h)) (
            slice_shift (len - pos) (suc pos) pos after perm λ j lt.
              let back : suc pos + j - 1 ≡ pos + j = omega arith in
              ground (arith, insert-cell perm len pos job (suc pos + j) h, ap perm back)))

-- The schedule after a removal.
pub remove-slice :
    (perm : ℕ → ℕ) (len pos : ℕ)
    → pos < len
    → slice (len - 1) 0 (remove perm len pos).1
      ≡ slice pos 0 perm ++ slice (len - 1 - pos) (suc pos) perm
remove-slice perm len pos h =
    let after = (remove perm len pos).1 in
    let e : len - 1 ≡ pos + (len - 1 - pos) = omega arith in
    ap (λ n. slice n 0 after) e
    ∙ slice_split_front pos (len - 1 - pos) after
    ∙ ap₂ ◌++◌
        (slice_congr pos 0 after perm λ j lo hi. ground (arith, remove-cell perm len pos j h))
        (slice_shift (len - 1 - pos) pos (suc pos) after perm
          λ j lt. ground (arith, remove-cell perm len pos (pos + j) h))

block_insert-cell :
    (n b : ℕ) (perm : ℕ → ℕ) (len pos : ℕ) (block : ℕ → ℕ) (i : ℕ)
    → pos + b ≤ len
    → (block_insert n b perm len pos block).0 i ≡ (
        if ltb i (pos + b)
        then perm i
        else (if ltb i (pos + b + n)
            then block (i - pos)
            else (if ltb i (len + n) then perm (i - n) else perm i)))
unfolding block_insert
block_insert-cell zero b perm len pos block i h = ground arith
block_insert-cell (suc n) b perm len pos block i h =
    let after = write (shift_up (len - (pos + b)) len perm) (pos + b) (block b) in
    let step : (j : ℕ)
        → after j ≡ (
            if ltb j (pos + b)
            then perm j
            else (if j == pos + b
                then block b
                else (if ltb j (suc len) then perm (j - 1) else perm j))) =
      λ j. unfold insert in insert-cell perm len (pos + b) (block b) j h in
    block_insert-cell n (suc b) after (suc len) pos block i (omega arith)
    ∙ ground (
      arith,
      step i,
      step (i - n),
      ap block {x = b} {y = i - pos},
      ap perm {x = i - n - 1} {y = i - suc n},
    )

-- The schedule after the insertion of a block.
pub block_insert-slice :
    (bl : ℕ) (perm : ℕ → ℕ) (len pos : ℕ) (block : ℕ → ℕ)
    → pos ≤ len
    → slice (len + bl) 0 (block_insert bl 0 perm len pos block).0
      ≡ slice pos 0 perm ++ (slice bl 0 block ++ slice (len - pos) pos perm)
block_insert-slice bl perm len pos block h =
    let after = (block_insert bl 0 perm len pos block).0 in
    let e : len + bl ≡ pos + (bl + (len - pos)) = omega arith in
    let cell = block_insert-cell bl 0 perm len pos block in
    ap (λ n. slice n 0 after) e
    ∙ slice_split_front pos (bl + (len - pos)) after
    ∙ ap₂ ◌++◌ (slice_congr pos 0 after perm λ j lo hi. ground (arith, cell j (omega arith))) (
        slice_split bl (len - pos) pos after
        ∙ ap₂ ◌++◌
            (slice_shift bl pos 0 after block λ j lt.
              ground
                (arith, cell (pos + j) (omega arith), ap block {x = pos + j - pos} {y = 0 + j}))
            (slice_shift (len - pos) (pos + bl) pos after perm λ j lt. ground (
              arith,
              cell (pos + bl + j) (omega arith),
              ap perm {x = pos + bl + j - bl} {y = pos + j},
            )))
