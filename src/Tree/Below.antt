-- ===== src/Tree/Below.antt =====
-- The leaves below a node, and how they are divided among its children.
use mathlib.Core.List.{
  append_assoc, append-nil, perm_middle, Mem, mem-cons, mem-cons_self, not-mem-nil,
}
use mathlib.Core.List.Perm
use mathlib.Core.Logic.Or
use pbbperm.Base.{
  ℕ, zero, suc, ◌+◌, ◌-◌, ◌≤◌, ◌<◌, ◌≡◌, ap, ap₂, ◌∙◌, sym, subst, ◌⊎◌, inl, inr, List, [], ◌∷◌,
  ◌++◌, Perm, arith, slice, ℕ_discrete, length, length-slice, split_last,
}
use pbbperm.Subproblem.{Subproblem, begin_order, end_order, child}
use pbbperm.Subproblem.Child.{fixed_front, open_jobs, fixed_back, child_begin, child_end}

-- The sequence `jobs` is a leaf below `n`: the front, the open jobs in some order, the back.
pub record Below (n : Subproblem) (jobs : List ℕ) : Type 0 where
  pub middle : List ℕ
  pub shape : jobs ≡ fixed_front n ++ (middle ++ fixed_back n)
  pub order : Perm middle (open_jobs n)

-- A member of a slice stands in one of its cells.
slice-find :
    (n i x : ℕ) (a : ℕ → ℕ)
    → ((k : ℕ) × (i ≤ k) × (k < i + n) × (a k ≡ x)) ⊎ (¬ Mem x (slice n i a))
unfolding slice
slice-find zero i x a = inr not-mem-nil
slice-find (suc n) i x a = elim (ℕ_discrete (a i) x) [
  | yes e ↦ inl (i, omega arith, omega arith, e)
  | no ne ↦ elim (slice-find n (suc i) x a) [
    | inl (k, lo, hi, e) ↦ inl (k, omega arith, omega arith, e)
    | inr none_there ↦ inr λ m. Or.elim (λ u. absurd u) (mem-cons.0 m) (λ e. ne (sym e)) none_there
  ]
]

open-find :
    (n : Subproblem) (x : ℕ) (rest : List ℕ)
    → n.front ≤ n.limit2
    → Perm (x ∷ rest) (open_jobs n)
    → (k : ℕ) × (n.front ≤ k) × (k < n.limit2) × (n.schedule k ≡ x)
open-find n x rest h p = elim (slice-find (n.limit2 - n.front) n.front x n.schedule) [
  | inl (k, lo, hi, e) ↦ (k, lo, omega arith, e)
  | inr missing ↦ absurd (missing ((Perm.mem_iff p).0 mem-cons_self))
]

-- A leaf below a child is below its father.
pub Below-child_begin :
    (n : Subproblem) (i : ℕ) (jobs : List ℕ)
    → n.front ≤ i
    → i < n.limit2
    → (b : Below (child n i begin_order) jobs)
    → Perm (n.schedule i ∷ b.middle) (open_jobs n)
      × (jobs ≡ fixed_front n ++ n.schedule i ∷ (b.middle ++ fixed_back n))
Below-child_begin n i jobs lo hi b =
    let (f, o, k) = child_begin n i lo hi in
    (
      Perm.trans (Perm.cons _ b.order) o,
      b.shape
          ∙ ap₂ (λ xs ys. xs ++ (b.middle ++ ys)) f k
          ∙ append_assoc (fixed_front n) (n.schedule i ∷ []) (b.middle ++ fixed_back n),
    )

pub Below-child_end :
    (n : Subproblem) (i : ℕ) (jobs : List ℕ)
    → n.front ≤ i
    → i < n.limit2
    → n.limit2 ≤ n.size
    → (b : Below (child n i end_order) jobs)
    → Perm (n.schedule i ∷ b.middle) (open_jobs n)
      × (jobs ≡ fixed_front n ++ (b.middle ++ n.schedule i ∷ fixed_back n))
Below-child_end n i jobs lo hi room b =
    let (f, o, k) = child_end n i lo hi room in
    (Perm.trans (Perm.cons _ b.order) o, b.shape ∙ ap₂ (λ xs ys. xs ++ (b.middle ++ ys)) f k)

begin_shape :
    (n : Subproblem) (i : ℕ) (rest : List ℕ)
    → n.front ≤ i
    → i < n.limit2
    → let c = child n i begin_order in
      fixed_front c ++ (rest ++ fixed_back c)
      ≡ fixed_front n ++ n.schedule i ∷ (rest ++ fixed_back n)
begin_shape n i rest lo hi =
    let (f, o, k) = child_begin n i lo hi in
    ap₂ (λ xs ys. xs ++ (rest ++ ys)) f k
    ∙ append_assoc (fixed_front n) (n.schedule i ∷ []) (rest ++ fixed_back n)

not-perm-nil : (n : Subproblem) → n.front < n.limit2 → ¬ Perm [] (open_jobs n)
not-perm-nil n h p =
    omega
      (arith, ap length (Perm.nil-eq p), length-slice {0} (n.limit2 - n.front) n.front n.schedule)

-- Each leaf below a node with an open job is below a child at the front.
pub begin_cover :
    (n : Subproblem) (jobs : List ℕ)
    → n.front < n.limit2
    → Below n jobs
    → (i : ℕ) × (n.front ≤ i) × (i < n.limit2) × Below (child n i begin_order) jobs
begin_cover n jobs h b = go b.middle b.shape b.order
  where
    go :
        (middle : List ℕ)
        → jobs ≡ fixed_front n ++ (middle ++ fixed_back n)
        → Perm middle (open_jobs n)
        → (i : ℕ) × (n.front ≤ i) × (i < n.limit2) × Below (child n i begin_order) jobs
    go [] e p = absurd (not-perm-nil n h p)
    go (x ∷ rest) e p =
        let (i, lo, hi, at) = open-find n x rest (omega arith) p in
        let (f, o, k) = child_begin n i lo hi in
        let o' = subst (λ t. Perm (t ∷ open_jobs (child n i begin_order)) (open_jobs n)) at o in
        (
          i,
          lo,
          hi,
          record {
            middle = rest;
            shape =
                e
                ∙ ap (λ t. fixed_front n ++ t ∷ (rest ++ fixed_back n)) (sym at)
                ∙ sym (begin_shape n i rest lo hi);
            order = Perm.cons_inv (Perm.trans p (Perm.symm o'));
          },
        )

-- Each leaf below a node with an open job is below a child at the back.
pub end_cover :
    (n : Subproblem) (jobs : List ℕ)
    → n.front < n.limit2
    → n.limit2 ≤ n.size
    → Below n jobs
    → (i : ℕ) × (n.front ≤ i) × (i < n.limit2) × Below (child n i end_order) jobs
end_cover n jobs h room b = go b.middle b.shape b.order
  where
    last :
        (ys : List ℕ) (y : ℕ)
        → jobs ≡ fixed_front n ++ ((ys ++ y ∷ []) ++ fixed_back n)
        → Perm (ys ++ y ∷ []) (open_jobs n)
        → (i : ℕ) × (n.front ≤ i) × (i < n.limit2) × Below (child n i end_order) jobs
    last ys y e p =
        let turned : Perm (y ∷ ys) (ys ++ y ∷ []) =
          Perm.symm
            (subst (λ t. Perm (ys ++ y ∷ []) (y ∷ t)) (append-nil ys) (perm_middle ys [])) in
        let p' = Perm.trans turned p in
        let (i, lo, hi, at) = open-find n y ys (omega arith) p' in
        let (f, o, k) = child_end n i lo hi room in
        let o' = subst (λ t. Perm (t ∷ open_jobs (child n i end_order)) (open_jobs n)) at o in
        (
          i,
          lo,
          hi,
          record {
            middle = ys;
            shape =
                e
                ∙ ap (◌++◌ (fixed_front n)) (append_assoc ys (y ∷ []) (fixed_back n))
                ∙ ap (λ t. fixed_front n ++ (ys ++ t ∷ fixed_back n)) (sym at)
                ∙ sym (ap₂ (λ xs zs. xs ++ (ys ++ zs)) f k);
            order = Perm.cons_inv (Perm.trans p' (Perm.symm o'));
          },
        )

    go :
        (middle : List ℕ)
        → jobs ≡ fixed_front n ++ (middle ++ fixed_back n)
        → Perm middle (open_jobs n)
        → (i : ℕ) × (n.front ≤ i) × (i < n.limit2) × Below (child n i end_order) jobs
    go [] e p = absurd (not-perm-nil n h p)
    go (x ∷ rest) e p =
        let (ys, y, s) = split_last x rest in
        last ys y (e ∙ ap (λ t. fixed_front n ++ (t ++ fixed_back n)) s)
          (subst (λ t. Perm t (open_jobs n)) s p)
