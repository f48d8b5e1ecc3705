-- ===== src/Branching/Loops.antt =====
-- The loops of `chooseBranching` in multicoreLL/src/tree.cpp, whose accumulators are signed, by those
-- that keep the two parts of a difference.
use pbbperm.Base.{
  ℕ, zero, suc, ◌+◌, ◌-◌, ◌≡◌, refl, ap, ap₂, ◌∙◌, Bool, true, false, arith, ltb, leb, ◌==◌,
  if◌then◌else◌, ℤ, pos, negsuc,
}
use pbbperm.Subproblem.{begin_order, end_order}
use pbbperm.Branching.{sum_if, count_if, least_positive}
use pbbperm.Branching.Signed.{
  plus, minus, below_zero, above_zero, sum_loop, elim_loop, min_loop, count_loop, by_sum, by_elim,
  by_min,
}

-- The difference of two numbers.
unfoldable pub diff : ℕ → ℕ → ℤ
diff p q = if leb q p then pos (p - q) else negsuc (q - p - 1)

plus-diff : (p q n : ℕ) → plus (diff p q) n ≡ diff (p + n) q
unfolding plus diff
plus-diff p q n = ground arith

minus-diff : (p q n : ℕ) → minus (diff p q) n ≡ diff p (q + n)
unfolding minus diff
minus-diff p q n = ground arith

below_zero-diff : (p q : ℕ) → below_zero (diff p q) ≡ ltb p q
unfolding below_zero diff
below_zero-diff p q = ground arith

above_zero-diff : (p q : ℕ) → above_zero (diff p q) ≡ ltb q p
unfolding above_zero diff
above_zero-diff p q = ground arith

-- A step that may add.
plus_if-diff :
    (b : Bool) (p q n : ℕ)
    → (if b then plus (diff p q) n else diff p q) ≡ diff (if b then p + n else p) q
plus_if-diff true p q n = plus-diff p q n
plus_if-diff false p q n = refl

minus_if-diff :
    (b : Bool) (p q n : ℕ)
    → (if b then minus (diff p q) n else diff p q) ≡ diff p (if b then q + n else q)
minus_if-diff true p q n = minus-diff p q n
minus_if-diff false p q n = refl

pub sum_loop-diff :
    (cb ce : ℕ → ℕ) (n i p q : ℕ)
    → sum_loop cb ce n i (diff p q)
      ≡ diff (sum_if (λ x. true) cb n i p) (sum_if (λ x. true) ce n i q)
unfolding sum_loop sum_if
sum_loop-diff cb ce zero i p q = refl
sum_loop-diff cb ce (suc n) i p q =
    ap (sum_loop cb ce n (suc i))
      (ap (λ z. minus z (ce i)) (plus-diff p q (cb i)) ∙ minus-diff (p + cb i) q (ce i))
    ∙ sum_loop-diff cb ce n (suc i) (p + cb i) (q + ce i)

sum_if-not : (ub x s : ℕ) → (if leb ub x then s else s + x) ≡ (if ltb x ub then s + x else s)
sum_if-not ub x s = ground arith

-- A step that adds unless the bound is reached.
plus_unless-diff :
    (ub x p q : ℕ)
    → (if leb ub x then diff p q else plus (diff p q) x) ≡ diff (if ltb x ub then p + x else p) q
plus_unless-diff ub x p q =
    ap (λ z. if leb ub x then diff p q else z) (plus-diff p q x)
    ∙ if_diff (leb ub x)
    ∙ ap (λ k. diff k q) (sum_if-not ub x p)
  where
    if_diff :
        (b : Bool) → (if b then diff p q else diff (p + x) q) ≡ diff (if b then p else p + x) q
    if_diff true = refl
    if_diff false = refl

minus_unless-diff :
    (ub x p q : ℕ)
    → (if leb ub x then diff p q else minus (diff p q) x) ≡ diff p (if ltb x ub then q + x else q)
minus_unless-diff ub x p q =
    ap (λ z. if leb ub x then diff p q else z) (minus-diff p q x)
    ∙ if_diff (leb ub x)
    ∙ ap (diff p) (sum_if-not ub x q)
  where
    if_diff :
        (b : Bool) → (if b then diff p q else diff p (q + x)) ≡ diff p (if b then q else q + x)
    if_diff true = refl
    if_diff false = refl

-- A step that may add one, and one that may take one away.
both_if-diff :
    (b c : Bool) (p q : ℕ)
    → (let z = if b then plus (diff p q) 1 else diff p q in if c then minus z 1 else z)
      ≡ diff (if b then suc p else p) (if c then suc q else q)
both_if-diff b c p q =
    ap (λ z. if c then minus z 1 else z) (plus_if-diff b p q 1)
    ∙ minus_if-diff c (if b then p + 1 else p) q 1
    ∙ ap₂ diff (one b p) (one c q)
  where
    one : (d : Bool) (n : ℕ) → (if d then n + 1 else n) ≡ (if d then suc n else n)
    one true n = omega arith
    one false n = refl

pub elim_loop-diff :
    (ub : ℕ) (cb ce : ℕ → ℕ) (n i p q s t : ℕ)
    → elim_loop ub cb ce n i (diff p q) (diff s t) ≡ (
      diff (count_if (λ x. leb ub x) cb n i p) (count_if (λ x. leb ub x) ce n i q),
      diff (sum_if (λ x. ltb x ub) cb n i s) (sum_if (λ x. ltb x ub) ce n i t),
    )
unfolding elim_loop sum_if count_if
elim_loop-diff ub cb ce zero i p q s t = refl
elim_loop-diff ub cb ce (suc n) i p q s t =
    ap₂ (elim_loop ub cb ce n (suc i)) (both_if-diff (leb ub (cb i)) (leb ub (ce i)) p q) (
      ap (λ z. if leb ub (ce i) then z else minus z (ce i)) (plus_unless-diff ub (cb i) s t)
      ∙ minus_unless-diff ub (ce i) (if ltb (cb i) ub then s + cb i else s) t)
    ∙ elim_loop-diff ub cb ce n (suc i) _ _ _ _

pub count_loop-diff :
    (least ub : ℕ) (cb ce : ℕ → ℕ) (n i p q s t : ℕ)
    → count_loop least ub cb ce n i (diff p q) (diff s t) ≡ (
      diff (count_if (λ x. x == least) cb n i p) (count_if (λ x. x == least) ce n i q),
      diff (count_if (λ x. leb ub x) cb n i s) (count_if (λ x. leb ub x) ce n i t),
    )
unfolding count_loop count_if
count_loop-diff least ub cb ce zero i p q s t = refl
count_loop-diff least ub cb ce (suc n) i p q s t =
    ap₂ (count_loop least ub cb ce n (suc i)) (both_if-diff (cb i == least) (ce i == least) p q)
      (both_if-diff (leb ub (cb i)) (leb ub (ce i)) s t)
    ∙ count_loop-diff least ub cb ce n (suc i) _ _ _ _

pub min_loop-least_positive :
    (cb ce : ℕ → ℕ) (n i least : ℕ) → min_loop cb ce n i least ≡ least_positive cb ce n i least
unfolding min_loop least_positive
min_loop-least_positive cb ce zero i least = refl
min_loop-least_positive cb ce (suc n) i least = min_loop-least_positive cb ce n (suc i) _

pub by_sum-diff : (p q : ℕ) → by_sum (diff p q) ≡ (if ltb p q then end_order else begin_order)
unfolding by_sum
by_sum-diff p q = ap (λ b. if b then end_order else begin_order) (below_zero-diff p q)

pub by_elim-diff :
    (p q s t : ℕ)
    → by_elim (diff p q, diff s t) ≡ (
        if ltb q p
        then begin_order
        else (if ltb p q then end_order else (if ltb s t then end_order else begin_order)))
unfolding by_elim
by_elim-diff p q s t =
    ap
      (λ b.
        if b then begin_order else (if below_zero (diff p q) then end_order else by_sum (diff s t)))
      (above_zero-diff p q)
    ∙ ap (λ b. if ltb q p then begin_order else (if b then end_order else by_sum (diff s t)))
        (below_zero-diff p q)
    ∙ ap (λ side. if ltb q p then begin_order else (if ltb p q then end_order else side))
        (by_sum-diff s t)

pub by_min-diff :
    (p q s t : ℕ)
    → by_min (diff p q, diff s t) ≡ (
        if ltb q p
        then end_order
        else (if ltb p q then begin_order else (if ltb t s then begin_order else end_order)))
unfolding by_min
by_min-diff p q s t =
    ap
      (λ b.
        if b
        then end_order
        else (if below_zero (diff p q)
            then begin_order
            else (if above_zero (diff s t) then begin_order else end_order)))
      (above_zero-diff p q)
    ∙ ap
        (λ b.
          if ltb q p
          then end_order
          else (if b
              then begin_order
              else (if above_zero (diff s t) then begin_order else end_order)))
        (below_zero-diff p q)
    ∙ ap
        (λ b.
          if ltb q p
          then end_order
          else (if ltb p q then begin_order else (if b then begin_order else end_order)))
        (above_zero-diff s t)

pub zero-diff : pos 0 ≡ diff 0 0
unfolding diff
zero-diff = refl
