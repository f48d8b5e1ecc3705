-- ===== src/Weights.antt =====
-- distributed/src/weights.cpp and distributed/src/fact_work.cpp: the weights of the positions of an
-- interval's ends, and the passage between position vectors and numbers. A big integer is a number.
pub mod Rank
pub mod RoundTrip
use pbbperm.Base.{ℕ, zero, suc, ◌+◌, ◌-◌, ◌*◌, ◌/◌, ◌%◌, write}

-- The loop of `weights::weights`, with `i` the cell that is written and `j` its factor.
fill_depth : ℕ → ℕ → ℕ → (ℕ → ℕ) → ℕ → ℕ
fill_depth zero i j depth = depth
fill_depth (suc n) i j depth = fill_depth n (i - 1) (suc j) (write depth i (depth (suc i) * j))

-- The array `depth` that the constructor leaves. `depth` as allocated is an argument.
unfoldable pub depth : ℕ → (ℕ → ℕ) → ℕ → ℕ
unfolding fill_depth
depth size memory = fill_depth (size - 1) (size - 2) 2 (write (write memory size 1) (size - 1) 1)

-- `W[i][j]`
unfoldable pub weight : ℕ → (ℕ → ℕ) → ℕ → ℕ → ℕ
weight size memory i j = j * depth size memory i

-- The loop of `VectToBigint` for one of the two vectors: cells `n - 1` down to 0.
sum_weights : (ℕ → ℕ → ℕ) → ℕ → (ℕ → ℕ) → ℕ → ℕ
sum_weights w zero v acc = acc
sum_weights w (suc i) v acc = sum_weights w i v (acc + w (suc i) (v i))

-- `VectToBigint`
unfoldable pub vect_to_bigint : ℕ → (ℕ → ℕ) → (ℕ → ℕ) → (ℕ → ℕ) → ℕ × ℕ
unfolding sum_weights
vect_to_bigint size memory pos_v end_v =
    (sum_weights (weight size memory) size pos_v 0, sum_weights (weight size memory) size end_v 0)

-- One of the two loops of `BigintToVect`: the quotient is the cell, the remainder goes on.
split_digits : (ℕ → ℕ) → ℕ → ℕ → ℕ → (ℕ → ℕ) → ℕ → ℕ
split_digits d zero k r v = v
split_digits d (suc n) k r v = split_digits d n (suc k) (r % d (suc k)) (write v k (r / d (suc k)))

-- `BigintToVect`, writing into `pos_v` and `end_v`
unfoldable pub bigint_to_vect : ℕ → (ℕ → ℕ) → ℕ → ℕ → (ℕ → ℕ) → (ℕ → ℕ) → (ℕ → ℕ) × (ℕ → ℕ)
unfolding split_digits
bigint_to_vect size memory begin end pos_v end_v = (
  split_digits (depth size memory) size 0 begin pos_v,
  split_digits (depth size memory) size 0 end end_v,
)
