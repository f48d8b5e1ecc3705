-- ===== src/Heuristic/Neh/Work.antt =====
-- heuristic/src/fastNEH.cpp: no makespan exceeds the work of its jobs.
use mathlib.Core.List.{Permᴰ}
use mathlib.Core.Logic.{∥∥₁_elim}
use native.Mathlib.Nat.{ℕ_set}
use pbbperm.Base.{
  ℕ, zero, suc, ◌+◌, ◌-◌, ◌≤◌, ◌<◌, ◌≡◌, refl, ap, ◌∙◌, List, [], ◌∷◌, ◌++◌, Perm, arith,
}
use pbbperm.Flowshop.Vectors.{Instance, push_front, heads, makespan}
use pbbperm.Flowshop.Paths.{push_front_mono}
use pbbperm.Heuristic.Best.{sum_pt}
use pbbperm.Heuristic.Peak.{Grows}

module _ (inst : Instance) where
  -- The time that the jobs of a list take on all machines.
  unfoldable pub work : List ℕ → ℕ
  unfolding sum_pt
  work [] = 0
  work (job ∷ jobs) = sum_pt inst inst.nb_machines job + work jobs

  pub work-append : (xs ys : List ℕ) → work (xs ++ ys) ≡ work xs + work ys
  unfolding work
  work-append [] ys = omega arith
  work-append (x ∷ xs) ys = omega (arith, work-append xs ys)

  Permᴰ-work : {xs ys : List ℕ} → Permᴰ xs ys → work xs ≡ work ys
  unfolding work
  Permᴰ-work Permᴰ.nil = refl
  Permᴰ-work (Permᴰ.cons x p) = omega (arith, Permᴰ-work p, ap (sum_pt inst inst.nb_machines) x)
  Permᴰ-work (Permᴰ.swap x y) =
      omega (arith, ap (sum_pt inst inst.nb_machines) x, ap (sum_pt inst inst.nb_machines) y)
  Permᴰ-work (Permᴰ.trans p q) = Permᴰ-work p ∙ Permᴰ-work q

  pub work-perm : {xs ys : List ℕ} → Perm xs ys → work xs ≡ work ys
  work-perm p = ∥∥₁_elim p (ℕ_set _ _) (λ q. Permᴰ-work q)

  push_front-le-work :
      (job : ℕ) (f : ℕ → ℕ) (k : ℕ)
      → Grows inst f
      → k < inst.nb_machines
      → push_front inst job f k ≤ f k + sum_pt inst (suc k) job
  unfolding push_front sum_pt
  push_front-le-work job f zero g h = omega arith
  push_front-le-work job f (suc k) g h =
      omega (arith, push_front-le-work job f k g (omega arith), g k (suc k) (omega arith) h)

  heads-le-work :
      (jobs : List ℕ) (f : ℕ → ℕ)
      → Grows inst f
      → 0 < inst.nb_machines
      → heads inst f jobs (inst.nb_machines - 1) ≤ f (inst.nb_machines - 1) + work jobs
  unfolding heads work
  heads-le-work [] f g h = omega arith
  heads-le-work (job ∷ jobs) f g h = omega (
    arith,
    heads-le-work jobs (push_front inst job f) (λ i j le hj. push_front_mono inst job f i j le) h,
    push_front-le-work job f (inst.nb_machines - 1) g (omega arith),
    ap (λ n. sum_pt inst n job) {x = suc (inst.nb_machines - 1)} {y = inst.nb_machines}
        (omega arith),
  )

  -- A makespan is at most the work.
  pub makespan-le-work : (jobs : List ℕ) → 0 < inst.nb_machines → makespan inst jobs ≤ work jobs
  unfolding makespan
  makespan-le-work jobs h = omega (arith, heads-le-work jobs (λ j. 0) (λ i j le hj. omega arith) h)
