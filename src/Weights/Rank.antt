-- ===== src/Weights/Rank.antt =====
-- The number of a position vector: its digits in the factorial number system.
use pbbperm.Base.{
  ℕ, zero, suc, ◌+◌, ◌*◌, ◌≤◌, ◌<◌, ◌≡◌, refl, sym, ap, ◌∙◌, subst, arith, ℕ_discrete,
  mul-add-le_of_lt, quotient_unique,
}

pub fact : ℕ → ℕ
fact zero = 1
fact (suc n) = suc n * fact n

pub fact-suc : (n : ℕ) → fact (suc n) ≡ suc n * fact n
unfolding fact
fact-suc n = refl

pub fact_zero : fact 0 ≡ 1
unfolding fact
fact_zero = refl

pub fact_pos : (n : ℕ) → 0 < fact n
unfolding fact
fact_pos zero = omega arith
fact_pos (suc n) = grind (arith, fact_pos n)

-- The number of the `n` digits from cell `k` on; the last digit counts ones.
unfoldable pub rank : ℕ → ℕ → (ℕ → ℕ) → ℕ
rank zero k v = 0
rank (suc n) k v = v k * fact n + rank n (suc k) v

-- Each of the `n` digits from cell `k` on is below the number of digits that are left.
abbrev pub IsPosition : ℕ → ℕ → (ℕ → ℕ) → Type 0
IsPosition zero k v = Unit
IsPosition (suc n) k v = (v k ≤ n) × IsPosition n (suc k) v

pub IsPosition-of_room :
    (n k : ℕ) (v : ℕ → ℕ) → ((i : ℕ) → k ≤ i → i < k + n → v i + i < k + n) → IsPosition n k v
IsPosition-of_room zero k v h = tt
IsPosition-of_room (suc n) k v h = (
  omega (arith, h k (omega arith) (omega arith)),
  IsPosition-of_room n (suc k) v (λ i lo hi. omega (arith, h i (omega arith) (omega arith))),
)

pub IsPosition-room :
    (n k i : ℕ) (v : ℕ → ℕ) → IsPosition n k v → k ≤ i → i < k + n → v i + i < k + n
IsPosition-room zero k i v h lo hi = absurd (omega arith)
IsPosition-room (suc n) k i v h lo hi = elim (ℕ_discrete k i) [
  | yes e ↦ subst (λ j. v j + j < k + suc n) e (omega arith)
  | no ne ↦ omega (arith, IsPosition-room n (suc k) i v h.1 (omega arith) (omega arith))
]

pub rank-lt : (n k : ℕ) (v : ℕ → ℕ) → IsPosition n k v → rank n k v < fact n
unfolding rank fact
rank-lt zero k v h = omega arith
rank-lt (suc n) k v h =
    omega (arith, rank-lt n (suc k) v h.1, mul-add-le_of_lt (v k) (suc n) (fact n) (omega arith))

pub rank_congr :
    (n k : ℕ) (v w : ℕ → ℕ) → ((i : ℕ) → k ≤ i → i < k + n → v i ≡ w i) → rank n k v ≡ rank n k w
unfolding rank
rank_congr zero k v w h = refl
rank_congr (suc n) k v w h =
    let e = h k (omega arith) (omega arith) in
    let ih = rank_congr n (suc k) v w (λ i lo hi. h i (omega arith) (omega arith)) in grind arith

pub rank_first : (n k : ℕ) (v : ℕ → ℕ) → ((i : ℕ) → k ≤ i → i < k + n → v i ≡ 0) → rank n k v ≡ 0
unfolding rank
rank_first zero k v h = refl
rank_first (suc n) k v h =
    let ih = rank_first n (suc k) v (λ i lo hi. h i (omega arith) (omega arith)) in
    let e = h k (omega arith) (omega arith) in ground arith

pub rank_mono :
    (n k : ℕ) (v w : ℕ → ℕ) → ((i : ℕ) → k ≤ i → i < k + n → v i ≤ w i) → rank n k v ≤ rank n k w
unfolding rank
rank_mono zero k v w h = omega arith
rank_mono (suc n) k v w h =
    let ih = rank_mono n (suc k) v w (λ i lo hi. h i (omega arith) (omega arith)) in
    let e = h k (omega arith) (omega arith) in grind arith

-- The last vector: every digit at its largest value.
pub rank_last :
    (n k : ℕ) (v : ℕ → ℕ)
    → ((i : ℕ) → k ≤ i → i < k + n → suc (v i + i) ≡ k + n)
    → suc (rank n k v) ≡ fact n
unfolding rank fact
rank_last zero k v h = refl
rank_last (suc n) k v h =
    let ih = rank_last n (suc k) v (λ i lo hi. h i (omega arith) (omega arith) ∙ omega arith) in
    let e : v k ≡ n = omega (arith, h k (omega arith) (omega arith)) in grind arith

-- The number of a vector determines its digits.
pub rank-injective :
    (n k : ℕ) (v w : ℕ → ℕ)
    → IsPosition n k v
    → IsPosition n k w
    → rank n k v ≡ rank n k w
    → (i : ℕ) → k ≤ i
    → i < k + n
    → v i ≡ w i
unfolding rank
rank-injective zero k v w hv hw e i lo hi = absurd (omega arith)
rank-injective (suc n) k v w hv hw e i lo hi =
    let a = rank-lt n (suc k) v hv.1 in
    let b = rank-lt n (suc k) w hw.1 in
    let same = quotient_unique (v k) (w k) (fact n) _ _ a b e in
    let tails : rank n (suc k) v ≡ rank n (suc k) w =
      omega (arith, ap (λ (t : ℕ). t * fact n) same) in
    elim (ℕ_discrete k i) [
      | yes here ↦ subst (λ j. v j ≡ w j) here same
      | no later ↦ rank-injective n (suc k) v w hv.1 hw.1 tails i (omega arith) (omega arith)
    ]

pub rank-nil : (k : ℕ) (v : ℕ → ℕ) → rank 0 k v ≡ 0
unfolding rank
rank-nil k v = refl

-- Two vectors that agree before cell `l`, where the first is one behind and then at its last value,
-- and the second at its first: their numbers are neighbours.
pub rank-suc :
    (n k l : ℕ) (v w : ℕ → ℕ)
    → k ≤ l
    → l < k + n
    → ((i : ℕ) → k ≤ i → i < l → v i ≡ w i)
    → suc (v l) ≡ w l
    → ((i : ℕ) → l < i → i < k + n → suc (v i + i) ≡ k + n)
    → ((i : ℕ) → l < i → i < k + n → w i ≡ 0)
    → suc (rank n k v) ≡ rank n k w
unfolding rank
rank-suc zero k l v w lo hi before at last first = absurd (omega arith)
rank-suc (suc n) k l v w lo hi before at last first = elim (ℕ_discrete k l) [
  | yes e ↦
      let full =
        rank_last n (suc k) v (λ i lo' hi'. last i (omega arith) (omega arith) ∙ omega arith) in
      let empty = rank_first n (suc k) w (λ i lo' hi'. first i (omega arith) (omega arith)) in
      let step : suc (v k) ≡ w k = subst (λ j. suc (v j) ≡ w j) (sym e) at in
      let product = ap (λ (t : ℕ). t * fact n) step in omega arith
  | no ne ↦
      let same = ap (λ (t : ℕ). t * fact n) (before k (omega arith) (omega arith)) in
      let ih =
        rank-suc n (suc k) l v w (omega arith) (omega arith)
          (λ i lo' hi'. before i (omega arith) hi') at
          (λ i lo' hi'. last i lo' (omega arith) ∙ omega arith)
          (λ i lo' hi'. first i lo' (omega arith)) in
      omega arith
]
