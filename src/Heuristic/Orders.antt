-- ===== src/Heuristic/Orders.antt =====
-- heuristic/src/fastinsertremove.cpp: `insert` and `remove` keep the jobs of the permutation, and
-- undo each other.
use mathlib.Core.List.{append-nil, perm_middle}
use mathlib.Core.List.Perm
use pbbperm.Base.{
  ℕ, suc, ◌+◌, ◌-◌, ◌≤◌, ◌<◌, ◌≡◌, refl, ap, ◌∙◌, sym, subst, List, [], ◌∷◌, ◌++◌, Perm, arith,
  slice, slice-snoc, slice_split_front, slice_congr,
}
use pbbperm.Heuristic.Edits.{insert, insert-slice, insert-cell, remove, remove-cell, remove-slice}

Perm-of_eq : {xs ys : List ℕ} → xs ≡ ys → Perm xs ys
Perm-of_eq {xs} e = subst (Perm xs) e (Perm.refl xs)

-- The jobs before a position and from it on.
slice-cut :
    (perm : ℕ → ℕ) (len pos : ℕ)
    → pos ≤ len
    → slice len 0 perm ≡ slice pos 0 perm ++ slice (len - pos) pos perm
slice-cut perm len pos h =
    ap (λ n. slice n 0 perm) {x = len} {y = pos + (len - pos)} (omega arith)
    ∙ slice_split_front pos (len - pos) perm

-- `insert` adds the job to those of the permutation.
pub insert-perm :
    (perm : ℕ → ℕ) (len pos job : ℕ)
    → pos ≤ len
    → Perm (slice (suc len) 0 (insert perm len pos job).0) (job ∷ slice len 0 perm)
insert-perm perm len pos job h = Perm.trans (Perm-of_eq (insert-slice perm len pos job h)) (
    Perm.trans (perm_middle (slice pos 0 perm) (slice (len - pos) pos perm))
      (Perm-of_eq (ap (◌∷◌ job) (sym (slice-cut perm len pos h)))))

-- `remove` takes the job at the position out of those of the permutation.
pub remove-perm :
    (perm : ℕ → ℕ) (len pos : ℕ)
    → pos < len
    → Perm ((remove perm len pos).0 ∷ slice (len - 1) 0 (remove perm len pos).1) (slice len 0 perm)
unfolding slice
remove-perm perm len pos h =
    let rest = slice (len - 1 - pos) (suc pos) perm in
    let e : slice (len - pos) pos perm ≡ perm pos ∷ rest =
      ap (λ n. slice n pos perm) {x = len - pos} {y = suc (len - 1 - pos)} (omega arith) in
    let job : (remove perm len pos).0 ≡ perm pos = unfold remove in refl in
    Perm.trans
      (Perm-of_eq (
        ap (λ j. j ∷ slice (len - 1) 0 (remove perm len pos).1) job
        ∙ ap (◌∷◌ (perm pos)) (remove-slice perm len pos h)))
      (Perm.trans (Perm.symm (perm_middle (slice pos 0 perm) rest)) (
        Perm-of_eq
          (ap (◌++◌ (slice pos 0 perm)) (sym e) ∙ sym (slice-cut perm len pos (omega arith)))))

-- `remove` at the position of an `insert` gives the job back, with the permutation and its length.
pub remove-insert :
    (perm : ℕ → ℕ) (len pos job : ℕ)
    → pos ≤ len
    → ((remove (insert perm len pos job).0 (insert perm len pos job).1 pos).0 ≡ job)
      × (slice len 0 (remove (insert perm len pos job).0 (insert perm len pos job).1 pos).1
          ≡ slice len 0 perm)
      × ((remove (insert perm len pos job).0 (insert perm len pos job).1 pos).2 ≡ len)
remove-insert perm len pos job h =
    let after = (insert perm len pos job).0 in
    let grown : (insert perm len pos job).1 ≡ suc len = unfold insert in refl in
    let there : after pos ≡ job = ground (arith, insert-cell perm len pos job pos h) in
    let cell : (i : ℕ) → 0 ≤ i → i < 0 + len → (remove after (suc len) pos).1 i ≡ perm i =
      λ i lo hi. ground (
        arith,
        remove-cell after (suc len) pos i (omega arith),
        insert-cell perm len pos job i h,
        insert-cell perm len pos job (suc i) h,
        ap perm {x = suc i - 1} {y = i} (omega arith),
      ) in
    subst
      (λ n.
        ((remove after n pos).0 ≡ job)
        × (slice len 0 (remove after n pos).1 ≡ slice len 0 perm)
        × ((remove after n pos).2 ≡ len))
      (sym grown)
      (
        (unfold remove in there),
        slice_congr len 0 (remove after (suc len) pos).1 perm cell,
        (unfold remove in omega arith),
      )

-- An `insert` of the job behind the first `k` ones keeps the jobs of the whole array.
pub insert_within-perm :
    (perm : ℕ → ℕ) (n k pos : ℕ)
    → pos ≤ k
    → k < n
    → Perm (slice n 0 (insert perm k pos (perm k)).0) (slice n 0 perm)
insert_within-perm perm n k pos hp hk =
    let after = (insert perm k pos (perm k)).0 in
    let behind : slice (n - suc k) (suc k) after ≡ slice (n - suc k) (suc k) perm =
      slice_congr (n - suc k) (suc k) after perm
        (λ j lo hi. ground (arith, insert-cell perm k pos (perm k) j hp)) in
    let front : Perm (slice (suc k) 0 after) (slice (suc k) 0 perm) =
      Perm.trans (insert-perm perm k pos (perm k) hp) (
        Perm.trans (Perm-of_eq (ap (◌∷◌ (perm k)) (sym (append-nil (slice k 0 perm))))) (
          Perm.trans (Perm.symm (perm_middle (slice k 0 perm) [])) (
            Perm-of_eq (
              sym (
                slice-snoc k 0 perm
                ∙ ap (λ j. slice k 0 perm ++ perm j ∷ []) {y = k} (omega arith)))))) in
    Perm.trans (Perm-of_eq (slice-cut after n (suc k) (omega arith))) (
      Perm.trans (Perm.append_right (slice (n - suc k) (suc k) after) front) (
        Perm-of_eq
          (ap (◌++◌ (slice (suc k) 0 perm)) behind ∙ sym (slice-cut perm n (suc k) (omega arith)))))
