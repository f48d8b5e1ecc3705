-- ===== src/Ivm/Jobs.antt =====
-- The jobs of the rows: a row holds what the row above leaves.
use mathlib.Core.List.Perm
use pbbperm.Base.{
  ℕ, zero, suc, ◌+◌, ◌-◌, ◌≤◌, ◌<◌, ◌≡◌, refl, ap, ◌∙◌, write, sym, ap₂, subst, subst₂, List, ◌∷◌,
  Perm, arith, ℕ_discrete, slice, slice_shift, slice_congr, ltb, ℤ, absolute, absolute-remove_flag,
  absolute-negative, true, false, dec_lt,
}
use pbbperm.Ivm.{Ivm, next_row, go_down, go_right, go_up, line_end_state, flag_cell}

-- The `n` jobs of a row from cell `k` on.
abbrev pub row_jobs : ℕ → ℕ → (ℕ → ℤ) → List ℕ
row_jobs n k row = slice n k λ i. absolute (row i)

-- The jobs of line `l`.
abbrev pub jobs : Ivm → ℕ → List ℕ
jobs v l = row_jobs (v.size - l) 0 (v.job_mat l)

module _ (w c : ℕ) (row old : ℕ → ℤ) where
  next_row-cell_before : (i : ℕ) → i < c → absolute (next_row w c row old i) ≡ absolute (row i)
  next_row-cell_before i h = ground (arith, absolute-remove_flag (row i))

  next_row-cell_after :
      (i j : ℕ) → c ≤ i → i < w → j ≡ suc i → absolute (next_row w c row old i) ≡ absolute (row j)
  next_row-cell_after i j h hi e = ground (arith, absolute-remove_flag (row (suc i)))

  next_row-slice_after :
      (n k : ℕ) → k + n ≤ w → c ≤ k → row_jobs n k (next_row w c row old) ≡ row_jobs n (suc k) row
  next_row-slice_after n k hw hc =
      slice_shift n k (suc k) _ _
        λ j hj. next_row-cell_after (k + j) (suc k + j) (omega arith) (omega arith) (omega arith)

  next_row-perm_from :
      (n k : ℕ)
      → k + n ≡ w
      → k ≤ c
      → c ≤ w
      → Perm (absolute (row c) ∷ row_jobs n k (next_row w c row old)) (row_jobs (suc n) k row)
  unfolding slice
  next_row-perm_from zero k hw hk hc =
      Perm.cons' (ap (λ i. absolute (row i)) (omega arith)) Perm.nil
  next_row-perm_from (suc n) k hw hk hc = elim (ℕ_discrete k c) [
    | yes e ↦ Perm.cons' (ap (λ i. absolute (row i)) (sym e)) (
        subst (λ l. Perm l (row_jobs (suc n) (suc k) row))
          (sym (next_row-slice_after (suc n) k (omega arith) (omega arith))) (Perm.refl _))
    | no ne ↦ Perm.trans (Perm.swap _ _ _) (
        Perm.cons' (next_row-cell_before k (omega arith))
          (next_row-perm_from n (suc k) (omega arith) (omega arith) hc))
  ]

-- Row `k + 1` of the matrix `m` holds the jobs of row `k` but the one that `k` points at.
abbrev pub Rests : ℕ → (ℕ → ℕ → ℤ) → (ℕ → ℕ) → ℕ → Type 0
Rests size m p k =
    Perm (absolute (m k (p k)) ∷ row_jobs (size - suc k) 0 (m (suc k)))
      (row_jobs (size - k) 0 (m k))

Rests-transfer :
    (size : ℕ) (m m' : ℕ → ℕ → ℤ) (p p' : ℕ → ℕ) (k : ℕ)
    → ((i : ℕ) → absolute (m k i) ≡ absolute (m' k i))
    → ((i : ℕ) → absolute (m (suc k) i) ≡ absolute (m' (suc k) i))
    → p k ≡ p' k
    → Rests size m p k
    → Rests size m' p' k
Rests-transfer size m m' p p' k row below same h =
    subst₂ (λ (a b : List ℕ). Perm a b)
      (ap₂ ◌∷◌ (ap (λ i. absolute (m k i)) same ∙ row (p' k))
        (slice_congr _ 0 _ _ (λ j lo hi. below j)))
      (slice_congr _ 0 _ _ (λ j lo hi. row j)) h

-- Every line down to the current one points within its row, and each row holds the jobs of the row
-- above but the one that is pointed at.
pub record IsConsistent (v : Ivm) : Type 0 where
  pub in_matrix : v.line < v.size
  pub points : (k : ℕ) → k < v.line → v.pos_vect k < v.size - k
  pub rests : (k : ℕ) → k < v.line → Rests v.size v.job_mat v.pos_vect k

absolute-flag_cell :
    (m : ℕ → ℕ → ℤ) (l i k j : ℕ) → absolute (flag_cell m l i k j) ≡ absolute (m k j)
absolute-flag_cell m l i k j = elim (ℕ_discrete l k) [
  | yes e ↦ elim (ℕ_discrete i j) [
    | yes e' ↦
        let cell : m l i ≡ m k j = ap₂ m e e' in
        ground (arith, absolute-negative (m l i), ap absolute cell)
    | no ne' ↦ ground arith
  ]
  | no ne ↦ ground arith
]

go_down-row :
    (v : Ivm) (i : ℕ)
    → (go_down v).job_mat (suc v.line) i
      ≡ next_row
          (v.size - suc v.line)
          (v.pos_vect v.line)
          (v.job_mat v.line)
          (v.job_mat (suc v.line))
          i
unfolding go_down
go_down-row v i =
    let e : suc v.line - 1 ≡ v.line = omega arith in
    ground (
      arith,
      ap
          (λ t.
            next_row (v.size - suc v.line) (v.pos_vect t) (v.job_mat t) (v.job_mat (suc v.line)) i)
          e,
    )

go_down-Rests :
    (v : Ivm)
    → v.line < v.size
    → v.pos_vect v.line < v.size - v.line
    → Rests v.size (go_down v).job_mat (go_down v).pos_vect v.line
unfolding go_down
go_down-Rests v hs hp =
    let w = v.size - suc v.line in
    let m = (go_down v).job_mat in
    let width : suc w ≡ v.size - v.line = omega arith in
    let same : (i : ℕ) → m v.line i ≡ v.job_mat v.line i = λ i. ground arith in
    let there : (go_down v).pos_vect v.line ≡ v.pos_vect v.line = ground arith in
    subst₂ (λ (a b : List ℕ). Perm a b)
      (ap₂ ◌∷◌
        (ap absolute (sym (same (v.pos_vect v.line))) ∙ ap (λ i. absolute (m v.line i)) (sym there))
        (slice_congr w 0 _ _ λ j lo hi. ap absolute (sym (go_down-row v j))))
      (ap (λ n. slice n 0 (λ i. absolute (v.job_mat v.line i))) width
        ∙ slice_congr (v.size - v.line) 0 _ _ (λ j lo hi. ap absolute (sym (same j))))
      (next_row-perm_from w (v.pos_vect v.line) (v.job_mat v.line) (v.job_mat (suc v.line)) w 0
        (omega arith) (omega arith) (omega arith))

-- `goRight` keeps the rows consistent: each row down to the line holds the jobs of the row above but
-- the one that is pointed at.
pub go_right-IsConsistent : (v : Ivm) → IsConsistent v → IsConsistent (go_right v)
unfolding go_right
go_right-IsConsistent v h = record {
  in_matrix = h.in_matrix;
  points = λ k hk. ground (arith, h.points k hk);
  rests = λ k hk.
      Rests-transfer v.size v.job_mat v.job_mat v.pos_vect (go_right v).pos_vect k (λ i. refl)
        (λ i. refl) (ground arith) (h.rests k hk);
}

-- `goUp` keeps the rows consistent, at the root too, where it moves right.
pub go_up-IsConsistent : (v : Ivm) → IsConsistent v → IsConsistent (go_up v)
unfolding go_up
go_up-IsConsistent v h = elim (dec_lt 0 v.line) [
  | no root ↦
      let test : ltb 0 v.line ≡ false = ground arith in rw (test, go_up) (go_right-IsConsistent v h)
  | yes below ↦
      let test : ltb 0 v.line ≡ true = ground arith in
      let l = v.line - 1 in
      let c = write v.pos_vect v.line 0 l in
      rw (test, go_up)
        (record {
          in_matrix = omega (arith, h.in_matrix);
          points = λ k hk. ground (arith, h.points k);
          rests = λ k hk.
              Rests-transfer v.size v.job_mat (flag_cell v.job_mat l c) v.pos_vect
                (write v.pos_vect v.line 0) k (λ i. sym (absolute-flag_cell v.job_mat l c k i))
                (λ i. sym (absolute-flag_cell v.job_mat l c (suc k) i)) (ground arith)
                (h.rests k (omega arith));
        })
]

-- `goDown` keeps the rows consistent: the new row holds the jobs of the row above but the one that
-- was pointed at. Condition: the new line is within the matrix, and the explorer is not at the end of
-- its line.
pub go_down-IsConsistent :
    (v : Ivm)
    → suc v.line < v.size
    → line_end_state v ≡ false
    → IsConsistent v
    → IsConsistent (go_down v)
unfolding go_down line_end_state
go_down-IsConsistent v hs he h = record {
  in_matrix = hs;
  points = λ k hk. ground (arith, h.points k);
  rests = λ k hk. elim (ℕ_discrete k v.line) [
    | no ne ↦
        Rests-transfer v.size v.job_mat (go_down v).job_mat v.pos_vect (go_down v).pos_vect k
          (λ i. ground arith) (λ i. ground arith) (ground arith) (h.rests k (omega arith))
    | yes e ↦
        subst (Rests v.size (go_down v).job_mat (go_down v).pos_vect) (sym e)
          (go_down-Rests v h.in_matrix (ground arith))
  ];
}
