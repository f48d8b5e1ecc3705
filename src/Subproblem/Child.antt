-- ===== src/Subproblem/Child.antt =====
-- A child fixes one open job of its father and keeps the rest.
use pbbperm.Base.{
  ℕ, zero, suc, ◌+◌, ◌-◌, ◌≤◌, ◌<◌, ◌≡◌, refl, ap, ap₂, ◌∙◌, sym, subst, ◌⊎◌, List, [], ◌∷◌, ◌++◌,
  Perm, arith, slice, slice-snoc, slice_congr, slice_shift, skip, slice-skip-perm, write,
  ℕ_discrete, dec_lt,
}
use pbbperm.Subproblem.{Subproblem, begin_order, end_order, shift_right, shift_left, child}

shift_right_kept :
    (n j k : ℕ) (s : ℕ → ℕ) → n ≤ j → (j < k) ⊎ (k + n ≤ j) → shift_right n j s k ≡ s k
unfolding shift_right
shift_right_kept zero j k s hn h = refl
shift_right_kept (suc n) j k s hn h =
    shift_right_kept n (j - 1) k (write s j (s (j - 1))) (omega arith) (omega arith) ∙ ground arith

shift_right_moved :
    (n j k : ℕ) (s : ℕ → ℕ) → n ≤ j → k ≤ j → j < k + n → shift_right n j s k ≡ s (k - 1)
unfolding shift_right
shift_right_moved zero j k s hn hk hj = absurd (omega arith)
shift_right_moved (suc n) j k s hn hk hj = elim (ℕ_discrete j k) [
  | yes e ↦
      shift_right_kept n (j - 1) k (write s j (s (j - 1))) (omega arith) (omega arith)
      ∙ ground (arith, ap (λ t. s (t - 1)) e)
  | no ne ↦
      shift_right_moved n (j - 1) k (write s j (s (j - 1))) (omega arith) (omega arith)
        (omega arith)
      ∙ ground arith
]

shift_left_kept : (n j k : ℕ) (s : ℕ → ℕ) → (k < j) ⊎ (j + n ≤ k) → shift_left n j s k ≡ s k
unfolding shift_left
shift_left_kept zero j k s h = refl
shift_left_kept (suc n) j k s h =
    shift_left_kept n (suc j) k (write s j (s (suc j))) (omega arith) ∙ ground arith

shift_left_moved : (n j k : ℕ) (s : ℕ → ℕ) → j ≤ k → k < j + n → shift_left n j s k ≡ s (suc k)
unfolding shift_left
shift_left_moved zero j k s lo hi = absurd (omega arith)
shift_left_moved (suc n) j k s lo hi = elim (ℕ_discrete j k) [
  | yes e ↦
      shift_left_kept n (suc j) k (write s j (s (suc j))) (omega arith)
      ∙ ground (arith, ap (λ t. s (suc t)) e)
  | no ne ↦
      shift_left_moved n (suc j) k (write s j (s (suc j))) (omega arith) (omega arith)
      ∙ ground arith
]

-- The jobs at the front, the open jobs and the jobs at the back.
abbrev pub fixed_front : Subproblem → List ℕ
fixed_front s = slice s.front 0 s.schedule

abbrev pub open_jobs : Subproblem → List ℕ
open_jobs s = slice (s.limit2 - s.front) s.front s.schedule

abbrev pub fixed_back : Subproblem → List ℕ
fixed_back s = slice (s.size - s.limit2) s.limit2 s.schedule

-- The child that moves the open job at `i` to the front: the job comes last there, the open jobs are
-- the others in some order, and the back stays as it is.
pub child_begin :
    (s : Subproblem) (i : ℕ)
    → s.front ≤ i
    → i < s.limit2
    → let c = child s i begin_order in
      (fixed_front c ≡ fixed_front s ++ s.schedule i ∷ [])
      × Perm (s.schedule i ∷ open_jobs c) (open_jobs s)
      × (fixed_back c ≡ fixed_back s)
unfolding child
child_begin s i lo hi = (
  slice-snoc s.front 0 c.schedule
      ∙ ap₂ (λ xs x. xs ++ x ∷ [])
          (slice_congr s.front 0 c.schedule s.schedule (λ j a b. below j (omega arith)))
          (ground arith),
  moved,
  slice_congr (s.size - s.limit2) s.limit2 c.schedule s.schedule (λ j a b. above j (omega arith)),
)
  where
    c : Subproblem
    c = child s i begin_order

    n : ℕ
    n = i - s.front

    below : (j : ℕ) → j < s.front → c.schedule j ≡ s.schedule j
    below j h = ground (arith, shift_right_kept n i j s.schedule)

    above : (j : ℕ) → i < j → c.schedule j ≡ s.schedule j
    above j h = ground (arith, shift_right_kept n i j s.schedule)

    cell : (j : ℕ) → s.front ≤ j → c.schedule (suc j) ≡ skip i s.schedule j
    cell j h = elim (dec_lt j i) [
      | yes lt ↦ ground (arith, shift_right_moved n i (suc j) s.schedule, ap s.schedule back)
      | no nlt ↦ ground (arith, shift_right_kept n i (suc j) s.schedule)
    ]
      where
        back : suc j - 1 ≡ j
        back = omega arith

    moved : Perm (s.schedule i ∷ open_jobs c) (open_jobs s)
    moved =
        let w = s.limit2 - suc s.front in
        let width : suc w ≡ s.limit2 - s.front = omega arith in
        subst (λ l. Perm (s.schedule i ∷ l) (open_jobs s))
          (sym (
            slice_shift w (suc s.front) s.front c.schedule (skip i s.schedule) (λ j hj.
              let e : suc s.front + j ≡ suc (s.front + j) = omega arith in
              ap c.schedule e ∙ cell (s.front + j) (omega arith))))
          (subst
            (λ t.
              Perm (s.schedule i ∷ slice w s.front (skip i s.schedule))
                (slice t s.front s.schedule))
            width (slice-skip-perm w s.front i s.schedule lo (omega arith)))

-- The child that moves the open job at `i` to the back: the job comes first there, the open jobs are
-- the others in some order, and the front stays as it is. Condition: `limit2` is at most the size.
pub child_end :
    (s : Subproblem) (i : ℕ)
    → s.front ≤ i
    → i < s.limit2
    → s.limit2 ≤ s.size
    → let c = child s i end_order in
      (fixed_front c ≡ fixed_front s)
      × Perm (s.schedule i ∷ open_jobs c) (open_jobs s)
      × (fixed_back c ≡ s.schedule i ∷ fixed_back s)
unfolding child
child_end s i lo hi room =
    (slice_congr s.front 0 c.schedule s.schedule (λ j a b. below j (omega arith)), moved, back)
  where
    c : Subproblem
    c = child s i end_order

    last : ℕ
    last = s.limit2 - 1

    n : ℕ
    n = last - i

    below : (j : ℕ) → j < s.front → c.schedule j ≡ s.schedule j
    below j h = ground (arith, shift_left_kept n i j s.schedule)

    above : (j : ℕ) → s.limit2 ≤ j → c.schedule j ≡ s.schedule j
    above j h = ground (arith, shift_left_kept n i j s.schedule)

    cell : (j : ℕ) → j < last → c.schedule j ≡ skip i s.schedule j
    cell j h = elim (dec_lt j i) [
      | yes lt ↦ ground (arith, shift_left_kept n i j s.schedule)
      | no nlt ↦ ground (arith, shift_left_moved n i j s.schedule)
    ]

    back : fixed_back c ≡ s.schedule i ∷ fixed_back s
    back =
        let width : s.size - last ≡ suc (s.size - s.limit2) = omega arith in
        let next : suc last ≡ s.limit2 = omega arith in
        let here : c.schedule last ≡ s.schedule i = ground arith in
        ap (λ t. slice t last c.schedule) width
        ∙ unfold slice in
          ap₂ ◌∷◌ here (
            ap (λ t. slice (s.size - s.limit2) t c.schedule) next
            ∙ slice_congr (s.size - s.limit2) s.limit2 c.schedule s.schedule (λ j a b. above j a))

    moved : Perm (s.schedule i ∷ open_jobs c) (open_jobs s)
    moved =
        let w = last - s.front in
        let width : suc w ≡ s.limit2 - s.front = omega arith in
        subst (λ l. Perm (s.schedule i ∷ l) (open_jobs s))
          (sym
            (slice_congr w s.front c.schedule (skip i s.schedule) (λ j a b. cell j (omega arith))))
          (subst
            (λ t.
              Perm (s.schedule i ∷ slice w s.front (skip i s.schedule))
                (slice t s.front s.schedule))
            width (slice-skip-perm w s.front i s.schedule lo (omega arith)))
