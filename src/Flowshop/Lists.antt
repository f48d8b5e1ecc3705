-- ===== src/Flowshop/Lists.antt =====
-- The loops over a schedule's cells as recursions on lists of jobs.
use mathlib.Core.List.{Permᴰ}
use mathlib.Core.Logic.{∥∥₁_elim}
use native.Mathlib.Nat.{ℕ_set}
use pbbperm.Base.{
  ℕ, zero, suc, ◌+◌, ◌-◌, ◌≡◌, refl, ap, ◌∙◌, sym, List, [], ◌∷◌, ◌++◌, Perm, arith, slice,
  slice-snoc,
}
use pbbperm.Flowshop.Vectors.{
  Instance, push_front, push_back, front_loop, back_loop, remain_loop, eval_solution, heads, tails,
  makespan, load,
}

module _ (inst : Instance) where
  pub front_loop-heads :
      (n i : ℕ) (permut f : ℕ → ℕ) → front_loop inst n i permut f ≡ heads inst f (slice n i permut)
  unfolding front_loop heads slice
  front_loop-heads zero i permut f = refl
  front_loop-heads (suc n) i permut f =
      front_loop-heads n (suc i) permut (push_front inst (permut i) f)

  pub heads-append :
      (xs ys : List ℕ) (f : ℕ → ℕ) → heads inst f (xs ++ ys) ≡ heads inst (heads inst f xs) ys
  unfolding heads
  heads-append [] ys f = refl
  heads-append (x ∷ xs) ys f = heads-append xs ys (push_front inst x f)

  pub tails-append :
      (xs ys : List ℕ) (b : ℕ → ℕ) → tails inst b (xs ++ ys) ≡ tails inst (tails inst b ys) xs
  unfolding tails
  tails-append [] ys b = refl
  tails-append (x ∷ xs) ys b = ap (push_back inst x) (tails-append xs ys b)

  pub back_loop-tails :
      (n low : ℕ) (permut b : ℕ → ℕ)
      → back_loop inst n low permut b ≡ tails inst b (slice n low permut)
  unfolding back_loop tails slice
  back_loop-tails zero low permut b = refl
  back_loop-tails (suc n) low permut b =
      back_loop-tails n low permut (push_back inst (permut (low + n)) b)
      ∙ sym (
          ap (tails inst b) (slice-snoc n low permut)
          ∙ tails-append (slice n low permut) (permut (low + n) ∷ []) b)

  pub remain_loop-load :
      (n k : ℕ) (permut r : ℕ → ℕ) (j : ℕ)
      → remain_loop inst n k permut r j ≡ r j + load inst j (slice n k permut)
  unfolding remain_loop load slice
  remain_loop-load zero k permut r j = omega arith
  remain_loop-load (suc n) k permut r j = omega (arith, remain_loop-load n (suc k) permut _ j)

  Permᴰ-load : {xs ys : List ℕ} → Permᴰ xs ys → (j : ℕ) → load inst j xs ≡ load inst j ys
  unfolding load
  Permᴰ-load Permᴰ.nil j = refl
  Permᴰ-load (Permᴰ.cons x p) j = omega (arith, Permᴰ-load p j, ap (inst.temps_job j) x)
  Permᴰ-load (Permᴰ.swap x y) j = omega (arith, ap (inst.temps_job j) x, ap (inst.temps_job j) y)
  Permᴰ-load (Permᴰ.trans p q) j = Permᴰ-load p j ∙ Permᴰ-load q j

  -- The order of the jobs does not change their load.
  pub load-perm : {xs ys : List ℕ} (j : ℕ) → Perm xs ys → load inst j xs ≡ load inst j ys
  load-perm j p = ∥∥₁_elim p (ℕ_set _ _) (λ q. Permᴰ-load q j)

  -- `evalSolution` computes the makespan of the jobs in the array.
  pub eval_solution-makespan :
      (permut : ℕ → ℕ) → eval_solution inst permut ≡ makespan inst (slice inst.nb_job 0 permut)
  unfolding eval_solution makespan
  eval_solution-makespan permut =
      ap (λ f. f (inst.nb_machines - 1)) (front_loop-heads inst.nb_job 0 permut (λ j. 0))
