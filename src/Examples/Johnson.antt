-- ===== src/Examples/Johnson.antt =====
-- The bound by pairs of machines on a problem of two jobs and three machines.
use mathlib.Core.List.{eq-or-mem_of_mem-cons, not-mem-nil}
use mathlib.Core.List.Perm
use mathlib.Core.Logic.{∥∥₁_elim}
use mathlib.Core.Bool.{Bool-set}
use pbbperm.Base.{
  ℕ, zero, suc, ◌+◌, ◌≤◌, ◌<◌, ◌≡◌, refl, ap, ◌∙◌, [], ◌∷◌, true, false, arith, inl, inr, pos,
  slice,
}
use pbbperm.Flowshop.Vectors.{Instance, makespan}
use pbbperm.Strong.Tables.{
  sum_from, init_somme, pairs_with, pairs_from, remplir_machine, lag_sum, remplir_lag, plus_petit,
  est_inf,
}
use pbbperm.Strong.Bound.{MachinePairs, StrongState, second_machine, strong_bornes_calculer}
use pbbperm.Strong.Flags.{IsSchedule}
use pbbperm.Strong.Admissible.{IsPairs, strong_bornes_calculer-admissible}

abbrev two_jobs : Instance
two_jobs = record { nb_job = 2; nb_machines = 3; temps_job = λ machine job. machine + job + 1 }

abbrev in_order : ℕ → ℕ
in_order i = i

unfoldable filled : MachinePairs
unfolding remplir_machine remplir_lag
filled = record {
  machine = remplir_machine 3 (λ i. 0);
  temps_lag = remplir_lag two_jobs (remplir_machine 3 (λ i. 0));
  tab_johnson = λ ind i. i;
}

three_pairs : init_somme 3 ≡ 3
unfolding init_somme sum_from
three_pairs = refl

filled-ordered :
    (ind : ℕ)
    → ind < 3
    → (filled.machine ind < second_machine two_jobs filled ind)
      × (second_machine two_jobs filled ind < 3)
unfolding filled remplir_machine pairs_from pairs_with init_somme sum_from
filled-ordered zero h = (omega arith, omega arith)
filled-ordered (suc zero) h = (omega arith, omega arith)
filled-ordered (suc (suc zero)) h = (omega arith, omega arith)
filled-ordered (suc (suc (suc ind))) h = absurd (omega arith)

-- The job 0 comes first for each pair.
zero_first :
    (ind : ℕ)
    → ind < 3
    → est_inf
        (plus_petit two_jobs
          (filled.machine ind)
          (second_machine two_jobs filled ind)
          (filled.temps_lag ind))
        1
        0
      ≡ false
unfolding filled remplir_machine pairs_from pairs_with init_somme sum_from remplir_lag lag_sum
    est_inf plus_petit
zero_first zero h = refl
zero_first (suc zero) h = refl
zero_first (suc (suc zero)) h = refl
zero_first (suc (suc (suc ind))) h = absurd (omega arith)

abbrev rule : ℕ → ℕ → ℕ × ℕ
rule ind =
    plus_petit two_jobs (filled.machine ind) (second_machine two_jobs filled ind)
      (filled.temps_lag ind)

filled-IsPairs : IsPairs two_jobs filled
unfolding slice filled
filled-IsPairs = record {
  ordered = λ ind h. (filled-ordered ind (omega (arith, three_pairs, h))).0;
  in_range = λ ind h. (filled-ordered ind (omega (arith, three_pairs, h))).1;
  lags = λ ind job h. unfold filled remplir_lag in refl;
  sorted = λ ind h. (
    λ y m. ∥∥₁_elim (eq-or-mem_of_mem-cons m) (Bool-set _ _) (λ o. elim o [
      | inl e ↦ ap (λ k. est_inf (rule ind) k 0) e ∙ zero_first ind (omega (arith, three_pairs, h))
      | inr none_left ↦ absurd (not-mem-nil none_left)
    ]),
    (λ y m. absurd (not-mem-nil m), tt),
  );
  orders = λ ind h. unfold filled in Perm.refl _;
}

abbrev fresh : StrongState
fresh = record {
  flag = λ i. pos 0;
  front = in_order;
  back = in_order;
  rewards = λ i. 0;
  count_machine_pairs = λ i. 0;
  machine_pair_order = in_order;
  nbbounds = 0;
}

in_order-IsSchedule : IsSchedule two_jobs in_order
in_order-IsSchedule = record { in_range = λ i h. h; distinct = λ i j lt h e. absurd (omega arith) }

-- The root, with the leaf that takes job 1 first.
strong_bornes_calculer-admissible_example :
    (strong_bornes_calculer two_jobs filled
      (record { early_exit = true; machine_pairs = 0 })
      fresh
      in_order
      0
      2
      0
      (pos 100)).0
    ≤ makespan two_jobs (1 ∷ 0 ∷ [])
unfolding slice
strong_bornes_calculer-admissible_example =
    strong_bornes_calculer-admissible two_jobs filled filled-IsPairs fresh in_order 0 2 1 (0 ∷ [])
      (omega arith) (omega arith) in_order-IsSchedule (Perm.refl _) (Perm.swap 0 1 [])
      (omega arith, (omega arith, tt)) (record { early_exit = true; machine_pairs = 0 }) 0 (pos 100)
      (omega arith) (omega arith) (λ l h. h)
