-- ===== src/Weights/RoundTrip.antt =====
-- The two passages of fact_work.cpp are inverse to one another.
use native.Mathlib.Nat.{mul_comm, mod-lt, div-add-mod'}
use pbbperm.Base.{
  ◌⊎◌, ℕ, zero, suc, ◌+◌, ◌-◌, ◌*◌, ◌/◌, ◌%◌, ◌≤◌, ◌<◌, ◌≡◌, refl, ap, ap₂, ◌∙◌, sym, write, arith,
}
use pbbperm.Weights.{
  fill_depth, depth, weight, sum_weights, vect_to_bigint, split_digits, bigint_to_vect,
}
use pbbperm.Weights.Rank.{
  fact, fact-suc, fact_zero, fact_pos, rank, rank-lt, rank-injective, rank-nil, IsPosition,
}

fill_depth-fact :
    (size n i j : ℕ) (d : ℕ → ℕ)
    → n ≤ size
    → i ≡ n - 1
    → j + n ≡ suc size
    → ((k : ℕ) → n ≤ k → k ≤ size → d k ≡ fact (size - k))
    → (k : ℕ) → k ≤ size
    → fill_depth n i j d k ≡ fact (size - k)
unfolding fill_depth
fill_depth-fact size zero i j d hn hi hj h k hk = h k (omega arith) hk
fill_depth-fact size (suc n) i j d hn hi hj h k hk =
    fill_depth-fact size n (i - 1) (suc j) (write d i (d (suc i) * j)) (omega arith) (omega arith)
      (omega arith) next k hk
  where
    next : (l : ℕ) → n ≤ l → l ≤ size → write d i (d (suc i) * j) l ≡ fact (size - l)
    next l lo hi' =
        let e : i ≡ n = omega arith in
        let factor : j ≡ suc (size - suc n) = omega arith in
        let value : d (suc i) * j ≡ fact (size - n) =
          ap₂ (λ x y. x * y) (ap d (ap suc e) ∙ h (suc n) (omega arith) (omega arith)) factor
          ∙ mul_comm (fact (size - suc n)) _
          ∙ sym (fact-suc (size - suc n))
          ∙ ap fact (omega arith) in
        ground (arith, h l)

-- Each cell `k` up to `size` of the array that the constructor of `weights` fills holds (size - k)!.
-- Condition: the size is positive.
pub depth-fact :
    (size : ℕ) (memory : ℕ → ℕ) (k : ℕ)
    → 0 < size
    → k ≤ size
    → depth size memory k ≡ fact (size - k)
unfolding depth
depth-fact size memory k h hk =
    fill_depth-fact size (size - 1) (size - 2) 2 _ (omega arith) (omega arith) (omega arith) start k
      hk
  where
    start :
        (l : ℕ)
        → size - 1 ≤ l
        → l ≤ size
        → write (write memory size 1) (size - 1) 1 l ≡ fact (size - l)
    start l lo hi =
        let one = fact-suc 0 in
        let nil = fact_zero in let e : (size - l ≡ 0) ⊎ (size - l ≡ 1) = omega arith in grind arith

div-le_of_lt : (r n f : ℕ) → r < suc n * f → r / f ≤ n
div-le_of_lt r n f h = grind arith

module _ (size : ℕ) (memory : ℕ → ℕ) (pos : 0 < size) where
  sum_weights-rank :
      (n m acc : ℕ) (v : ℕ → ℕ)
      → n + m ≡ size
      → acc ≡ rank m n v
      → sum_weights (weight size memory) n v acc ≡ rank size 0 v
  unfolding sum_weights weight rank
  sum_weights-rank zero m acc v e h = rw h (ap (λ t. rank t 0 v) (omega arith))
  sum_weights-rank (suc n) m acc v e h = sum_weights-rank n (suc m) _ v (omega arith) (
      let d = depth-fact size memory (suc n) pos (omega arith) in
      let r : size - suc n ≡ m = omega arith in ground arith)

  split_digits-rank :
      (n k r : ℕ) (v : ℕ → ℕ)
      → n + k ≡ size
      → r < fact n
      → let u = split_digits (depth size memory) n k r v in
        IsPosition n k u × (rank n k u ≡ r) × ((i : ℕ) → i < k → u i ≡ v i)
  unfolding split_digits rank
  split_digits-rank zero k r v e h = (tt, omega (arith, fact_zero), λ i hi. refl)
  split_digits-rank (suc n) k r v e h =
      let d : depth size memory (suc k) ≡ fact n =
        depth-fact size memory (suc k) pos (omega arith) ∙ ap fact (omega arith) in
      let room : r < suc n * fact n = omega (arith, fact-suc n) in
      let q = r / depth size memory (suc k) in
      let (valid, value, below) =
        split_digits-rank n (suc k) (r % depth size memory (suc k)) (write v k q) (omega arith)
          (rw d (mod-lt r (fact_pos n))) in
      let digit : split_digits (depth size memory) n (suc k) (r % depth size memory (suc k))
            (write v k q) k
          ≡ q =
        below k (omega arith) ∙ (ground arith) in
      (
        (rw (digit, d) (div-le_of_lt r n (fact n) room), valid),
        rw (digit, value, d) (div-add-mod' r (fact n)),
        λ i hi. below i (omega arith) ∙ ground arith,
      )

  -- What `VectToBigint` computes: the ranks of the two vectors.
  pub vect_to_bigint-rank :
      (pos_v end_v : ℕ → ℕ)
      → vect_to_bigint size memory pos_v end_v ≡ (rank size 0 pos_v, rank size 0 end_v)
  unfolding vect_to_bigint
  vect_to_bigint-rank pos_v end_v =
      ap₂ (λ a b. (a, b))
        (sum_weights-rank size 0 0 pos_v (omega arith) (sym (rank-nil size pos_v)))
        (sum_weights-rank size 0 0 end_v (omega arith) (sym (rank-nil size end_v)))

  -- Two numbers below size! are turned into two position vectors, and read back unchanged, for a
  -- positive size and whatever the arrays held.
  pub vect_to_bigint-bigint_to_vect :
      (begin end : ℕ) (pos_v end_v : ℕ → ℕ)
      → begin < fact size
      → end < fact size
      → let (p, e) = bigint_to_vect size memory begin end pos_v end_v in
        IsPosition size 0 p × IsPosition size 0 e × (vect_to_bigint size memory p e ≡ (begin, end))
  unfolding bigint_to_vect
  vect_to_bigint-bigint_to_vect begin end pos_v end_v hb he =
      let (vb, rb, _) = split_digits-rank size 0 begin pos_v (omega arith) hb in
      let (ve, re, _) = split_digits-rank size 0 end end_v (omega arith) he in
      (vb, ve, vect_to_bigint-rank _ _ ∙ ap₂ (λ a b. (a, b)) rb re)

  -- Two position vectors are turned into two numbers, and read back unchanged in every cell below the
  -- size, which is positive, whatever the arrays held.
  pub bigint_to_vect-vect_to_bigint :
      (pos_v end_v p e : ℕ → ℕ)
      → IsPosition size 0 pos_v
      → IsPosition size 0 end_v
      → (i : ℕ) → i < size
      → let (begin, end) = vect_to_bigint size memory pos_v end_v in
        let (p', e') = bigint_to_vect size memory begin end p e in
        (p' i ≡ pos_v i) × (e' i ≡ end_v i)
  unfolding bigint_to_vect vect_to_bigint
  bigint_to_vect-vect_to_bigint pos_v end_v p e hp he i hi = (cell pos_v p hp, cell end_v e he)
    where
      cell :
          (v w : ℕ → ℕ)
          → IsPosition size 0 v
          → split_digits (depth size memory) size 0 (sum_weights (weight size memory) size v 0) w i
            ≡ v i
      cell v w h =
          let s = sum_weights-rank size 0 0 v (omega arith) (sym (rank-nil size v)) in
          let (valid, value, _) =
            split_digits-rank size 0 (sum_weights (weight size memory) size v 0) w (omega arith)
              (rw s (rank-lt size 0 v h)) in
          rank-injective size 0 _ v valid h (value ∙ s) i (omega arith) (omega arith)
