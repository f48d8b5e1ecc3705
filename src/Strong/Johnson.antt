-- ===== src/Strong/Johnson.antt =====
-- bounds/src/bound_fsp_strong.cpp: the sequence that `Johnson` sorts is a best one for two machines
-- with lags.
use mathlib.Core.List.{
  Mem, perm_middle, append_of_mem, mem-append_left, mem-cons_self, mem-cons_of_mem,
}
use mathlib.Core.List.Perm
use mathlib.Core.Logic.{∥∥₁_elim}
use native.Mathlib.Nat.{le_refl, le_trans}
use native.Mathlib.Bridge.{le_prop}
use pbbperm.Base.{ℕ, ◌+◌, ◌≤◌, max, ◌≡◌, sym, subst, List, [], ◌∷◌, ◌++◌, Perm, arith, false}
use pbbperm.Flowshop.Vectors.{Instance}
use pbbperm.Strong.Tables.{plus_petit, est_inf}

module _ (inst : Instance) (u v : ℕ) (lag : ℕ → ℕ) where
  -- The time on the second machine after a list of jobs, from the times on the two machines.
  unfoldable pub finish : List ℕ → ℕ → ℕ → ℕ
  finish [] t0 t1 = t1
  finish (x ∷ xs) t0 t1 =
      finish xs (t0 + inst.temps_job u x)
        (max t1 (t0 + inst.temps_job u x + lag x) + inst.temps_job v x)

  -- No job of the list belongs before `x`.
  abbrev pub First : ℕ → List ℕ → Type 0
  First x xs = (y : ℕ) → Mem y xs → est_inf (plus_petit inst u v lag) y x ≡ false

  -- Sorted by Johnson's rule.
  abbrev pub IsSorted : List ℕ → Type 0
  IsSorted [] = Unit
  IsSorted (x ∷ xs) = First x xs × IsSorted xs

  finish_mono : (xs : List ℕ) (t0 t1 t1' : ℕ) → t1 ≤ t1' → finish xs t0 t1 ≤ finish xs t0 t1'
  unfolding finish
  finish_mono [] t0 t1 t1' h = h
  finish_mono (x ∷ xs) t0 t1 t1' h = finish_mono xs _ _ _ (omega arith)

  finish-swap :
      (x y : ℕ) (xs : List ℕ) (t0 t1 : ℕ)
      → est_inf (plus_petit inst u v lag) y x ≡ false
      → finish (x ∷ y ∷ xs) t0 t1 ≤ finish (y ∷ x ∷ xs) t0 t1
  unfolding finish est_inf plus_petit
  finish-swap x y xs t0 t1 e =
      let a = inst.temps_job u x in
      let b = inst.temps_job v x in
      let c = inst.temps_job u y in
      let d = inst.temps_job v y in
      let swapped : max (max t1 (t0 + a + lag x) + b) (t0 + a + c + lag y) + d
          ≤ max (max t1 (t0 + c + lag y) + d) (t0 + c + a + lag x) + b =
        ground (arith, e) in
      subst
        (λ s.
          finish xs (t0 + a + c) (max (max t1 (t0 + a + lag x) + b) (t0 + a + c + lag y) + d)
          ≤ finish xs s (max (max t1 (t0 + c + lag y) + d) (t0 + c + a + lag x) + b))
        {x = t0 + a + c} (omega arith) (finish_mono xs (t0 + a + c) _ _ swapped)

  finish-front :
      (x : ℕ) (before after : List ℕ) (t0 t1 : ℕ)
      → First x before
      → finish (x ∷ (before ++ after)) t0 t1 ≤ finish (before ++ x ∷ after) t0 t1
  unfolding finish
  finish-front x [] after t0 t1 first = le_refl _
  finish-front x (y ∷ before) after t0 t1 first =
      le_trans (finish-swap x y (before ++ after) t0 t1 (first y mem-cons_self)) (
        finish-front x before after (t0 + inst.temps_job u y)
          (max t1 (t0 + inst.temps_job u y + lag y) + inst.temps_job v y)
          (λ z m. first z (mem-cons_of_mem y m)))

  -- A list that Johnson's rule sorts ends no later than any other order of its jobs.
  pub finish-least :
      (sorted jobs : List ℕ) (t0 t1 : ℕ)
      → IsSorted sorted
      → Perm sorted jobs
      → finish sorted t0 t1 ≤ finish jobs t0 t1
  unfolding finish
  finish-least [] jobs t0 t1 ok p =
      subst (λ l. finish [] t0 t1 ≤ finish l t0 t1) (Perm.nil-eq p) (le_refl _)
  finish-least (x ∷ sorted) jobs t0 t1 ok p =
      ∥∥₁_elim (append_of_mem ((Perm.mem_iff p).0 mem-cons_self)) le_prop (λ (before, after, e).
        let split : Perm (x ∷ sorted) (before ++ x ∷ after) = subst (Perm (x ∷ sorted)) e p in
        let rest : Perm sorted (before ++ after) =
          Perm.cons_inv (Perm.trans split (perm_middle before after)) in
        let first : First x before =
          λ y m. ok.0 y ((Perm.mem_iff rest).1 (mem-append_left after m)) in
        subst (λ l. finish (x ∷ sorted) t0 t1 ≤ finish l t0 t1) (sym e)
          (le_trans
            (finish-least sorted (before ++ after) (t0 + inst.temps_job u x)
              (max t1 (t0 + inst.temps_job u x + lag x) + inst.temps_job v x) ok.1 rest)
            (finish-front x before after t0 t1 first)))
