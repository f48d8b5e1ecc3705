-- ===== src/Ivm/Share.antt =====
-- Where work sharing cuts.
use pbbperm.Base.{
  ℕ, zero, suc, ◌+◌, ◌-◌, ◌/◌, ◌≤◌, ◌<◌, ◌≡◌, ◌⊎◌, inl, inr, false, Bool-cases, some, arith, ltb, ℤ,
  is_negative, if◌then◌else◌, ℕ_discrete, Bool, subst, ◌==◌, ◌&&◌,
}
use pbbperm.Ivm.{
  Ivm, count_from, count_explorable_subtrees, skip_kept, checked_cut, cutting_position, open_level,
}

count_from-shift :
    (n i : ℕ) (row : ℕ → ℤ) (count : ℕ) → count_from n i row count ≡ count_from n i row 0 + count
unfolding count_from
count_from-shift zero i row count = omega arith
count_from-shift (suc n) i row count =
    let a = count_from-shift n (suc i) row count in
    let b = count_from-shift n (suc i) row (suc count) in
    let c = count_from-shift n (suc i) row 1 in ground arith

count_from-le : (n i : ℕ) (row : ℕ → ℤ) → count_from n i row 0 ≤ n
unfolding count_from
count_from-le zero i row = omega arith
count_from-le (suc n) i row =
    ground (arith, count_from-le n (suc i) row, count_from-shift n (suc i) row 1)

-- With fewer cells to keep than there are explorable ones among the next `n`, or with none left to
-- keep, the loop ends among these `n` cells.
skip_kept-some :
    (n fuel i : ℕ) (row : ℕ → ℤ) (keep kept : ℕ)
    → n ≤ fuel
    → 0 < n
    → (keep ≡ kept) ⊎ (keep < count_from n i row 0 + kept)
    → kept ≤ keep
    → (c : ℕ) × (skip_kept fuel row keep kept i ≡ some c) × (i ≤ c) × (c < i + n)
unfolding skip_kept count_from
skip_kept-some zero fuel i row keep kept hf hn hk h = absurd (omega arith)
skip_kept-some (suc n) zero i row keep kept hf hn hk h = absurd (omega arith)
skip_kept-some (suc n) (suc fuel) i row keep kept hf hn hk h = elim (Bool-cases (ltb kept keep)) [
  | inr done ↦ (i, rw done, omega arith, omega arith)
  | inl more ↦
      let shift = count_from-shift n (suc i) row 1 in
      let few = count_from-le n (suc i) row in
      let (c, e, lo, hi) =
        skip_kept-some n fuel (suc i) row keep (if is_negative (row i) then kept else suc kept)
          (omega arith) (ground arith) (inr (ground arith)) (ground arith) in
      (c, rw more e, omega arith, omega arith)
]

-- On a level whose position is before its end, which is at most the size, `cuttingPosition` with
-- division 2 ends, and the position that it finds lies behind the current one and within the interval,
-- so that the program's two checks do not fail.
pub cutting_position-some :
    (v : Ivm) (l : ℕ)
    → v.pos_vect l < v.end_vect l
    → v.end_vect l ≤ v.size
    → (c : ℕ) × (cutting_position v l 2 ≡ some c) × (v.pos_vect l < c) × (c ≤ v.end_vect l)
unfolding cutting_position count_explorable_subtrees checked_cut
cutting_position-some v l h room =
    let n = v.end_vect l - v.pos_vect l in
    let row = v.job_mat l in
    let explorable = count_from n (suc (v.pos_vect l)) row 0 in
    let few = count_from-le n (suc (v.pos_vect l)) row in
    let (c, e, lo, hi) =
      skip_kept-some n (suc v.size) (suc (v.pos_vect l)) row (explorable / 2) 0 (omega arith)
        (omega arith) (omega arith) (omega arith) in
    let kept : ltb (v.end_vect l) (v.pos_vect l + explorable) ≡ false = ground arith in
    (c, rw (kept, e) (ground arith), omega arith, omega arith)

pub open_level_lem :
    (n l : ℕ) (v : Ivm)
    → l + n ≡ v.line
    → let k = open_level n l v in
      (l ≤ k) × (k ≤ v.line) × ((i : ℕ) → l ≤ i → i < k → v.pos_vect i ≡ v.end_vect i)
unfolding open_level
open_level_lem zero l v e = (omega arith, omega arith, λ i lo hi. absurd (omega arith))
open_level_lem (suc n) l v e = elim (Bool-cases (test)) [
  | inr stop ↦ rw stop (omega arith, omega arith, λ i lo hi. absurd (omega arith))
  | inl go ↦ rw go (
      let (lo, hi, same) = open_level_lem n (suc l) v (omega arith) in
      (
        omega arith,
        hi,
        λ i lo' hi'. elim (ℕ_discrete l i) [
          | yes e' ↦ subst (λ j. v.pos_vect j ≡ v.end_vect j) e' (ground arith)
          | no ne ↦ same i (omega arith) hi'
        ],
      ))
]
  where
    test : Bool
    test = (v.pos_vect l == v.end_vect l) && (ltb l v.line && ltb (l + 10) v.size)
