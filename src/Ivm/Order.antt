-- ===== src/Ivm/Order.antt =====
-- `beforeEnd` compares the numbers of the two vectors.
use pbbperm.Base.{
  ℕ, zero, suc, ◌*◌, ◌≤◌, ◌<◌, ◌≡◌, refl, ◌↔◌, true, ap, arith, mul-add-le_of_lt, dec_lt, subst,
}
use pbbperm.Weights.Rank.{rank, rank-lt, fact, IsPosition}
use pbbperm.Ivm.{Ivm, before_from, before_end}

before_from-le :
    (n k : ℕ) (p e : ℕ → ℕ)
    → IsPosition n k p
    → IsPosition n k e
    → (before_from n k p e ≡ true) ↔ (rank n k p ≤ rank n k e)
unfolding before_from rank
before_from-le zero k p e hp he = (λ h. omega arith, λ h. refl)
before_from-le (suc n) k p e hp he =
    let ih = before_from-le n (suc k) p e hp.1 he.1 in
    let a = rank-lt n (suc k) p hp.1 in
    let b = rank-lt n (suc k) e he.1 in
    elim (dec_lt (p k) (e k)) [
      | yes lt ↦
          let m = mul-add-le_of_lt (p k) (e k) (fact n) lt in (λ h. omega arith, λ h. ground arith)
      | no nlt ↦ elim (dec_lt (e k) (p k)) [
        | yes gt ↦
            let m = mul-add-le_of_lt (e k) (p k) (fact n) gt in
            (λ h. ground arith, λ h. absurd (omega arith))
        | no ngt ↦
            let same : p k ≡ e k = omega arith in
            let products = ap (λ (t : ℕ). t * fact n) same in
            (
              λ h.
                  let h' : before_from n (suc k) p e ≡ true = ground arith in
                  omega (arith, ih.0 h'),
              λ h. let h' = ih.1 (omega arith) in ground arith,
            )
      ]
    ]

-- An explorer is before its end exactly when the number of its position vector is at most that of
-- its end vector, both vectors being positions of the problem.
pub before_end-le :
    (v : Ivm)
    → IsPosition v.size 0 v.pos_vect
    → IsPosition v.size 0 v.end_vect
    → (before_end v ≡ true) ↔ (rank v.size 0 v.pos_vect ≤ rank v.size 0 v.end_vect)
unfolding before_end
before_end-le v hp he = before_from-le v.size 0 v.pos_vect v.end_vect hp he

before_from-first : (n : ℕ) (p e : ℕ → ℕ) → before_from (suc n) 0 p e ≡ true → p 0 ≤ e 0
unfolding before_from
before_from-first n p e h = ground arith

-- Before its end an explorer is not behind it on the first line.
pub before_end-first : (v : Ivm) → 0 < v.size → before_end v ≡ true → v.pos_vect 0 ≤ v.end_vect 0
unfolding before_end
before_end-first v some h = go v.size refl
  where
    go : (n : ℕ) → v.size ≡ n → v.pos_vect 0 ≤ v.end_vect 0
    go zero e = absurd (omega arith)
    go (suc n) e =
        before_from-first n v.pos_vect v.end_vect
          (subst (λ t. before_from t 0 v.pos_vect v.end_vect ≡ true) e h)
