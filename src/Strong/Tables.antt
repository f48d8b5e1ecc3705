-- ===== src/Strong/Tables.antt =====
-- bounds/src/bound_fsp_strong.cpp: what `initialiserVar` computes, and the rule of `Johnson`.
use pbbperm.Base.{ℕ, zero, suc, ◌+◌, ◌-◌, Bool, ltb, ◌==◌, if◌then◌else◌, write}
use pbbperm.Flowshop.Vectors.{Instance, arr_loop, dep_loop}

-- `initSomme`: the machines from `i` on, `n` of them
unfoldable pub sum_from : ℕ → ℕ → ℕ → ℕ
sum_from zero i somme = somme
sum_from (suc n) i somme = sum_from n (suc i) (somme + i)

-- `initSomme`
unfoldable pub init_somme : ℕ → ℕ
unfolding sum_from
init_somme nb_machines = sum_from (nb_machines - 1) 1 0

-- `remplirMachine`: the pairs of machine `i` with `n` machines from `j` on
unfoldable pub pairs_with : ℕ → ℕ → ℕ → ℕ → ℕ × (ℕ → ℕ) → ℕ × (ℕ → ℕ)
pairs_with somme zero i j (cmpt, machine) = (cmpt, machine)
pairs_with somme (suc n) i j (cmpt, machine) =
    pairs_with somme n i (suc j) (suc cmpt, write (write machine cmpt i) (somme + cmpt) j)

-- `remplirMachine`: the pairs of `n` machines from `i` on
unfoldable pub pairs_from : ℕ → ℕ → ℕ → ℕ → ℕ × (ℕ → ℕ) → ℕ × (ℕ → ℕ)
unfolding pairs_with
pairs_from somme nb_machines zero i filled = filled
pairs_from somme nb_machines (suc n) i filled =
    pairs_from somme nb_machines n (suc i) (pairs_with somme (nb_machines - suc i) i (suc i) filled)

-- `remplirMachine`
unfoldable pub remplir_machine : ℕ → (ℕ → ℕ) → ℕ → ℕ
unfolding pairs_from init_somme
remplir_machine nb_machines machine =
    (pairs_from (init_somme nb_machines) nb_machines (nb_machines - 1) 0 (0, machine)).1

-- `estInf`
unfoldable pub est_inf : (ℕ → ℕ × ℕ) → ℕ → ℕ → Bool
est_inf pluspetit i j =
    if (pluspetit i).0 == (pluspetit j).0
    then (if (pluspetit i).0 == 1
        then ltb (pluspetit i).1 (pluspetit j).1
        else ltb (pluspetit j).1 (pluspetit i).1)
    else ltb (pluspetit i).0 (pluspetit j).0

module _ (inst : Instance) where
  -- `remplirLag`: `n` machines from `k` on
  unfoldable pub lag_sum : ℕ → ℕ → ℕ → ℕ → ℕ
  lag_sum zero k job lag = lag
  lag_sum (suc n) k job lag = lag_sum n (suc k) job (lag + inst.temps_job k job)

  -- `remplirLag`
  unfoldable pub remplir_lag : (ℕ → ℕ) → ℕ → ℕ → ℕ
  unfolding lag_sum init_somme
  remplir_lag machine i j =
      let m1 = machine i in
      let m2 = machine (init_somme inst.nb_machines + i) in lag_sum (m2 - suc m1) (suc m1) j 0

  -- `Johnson`: `pluspetit[0]` and `pluspetit[1]` of the machines `m1` and `m2`, with the lags
  unfoldable pub plus_petit : ℕ → ℕ → (ℕ → ℕ) → ℕ → ℕ × ℕ
  plus_petit m1 m2 lag i =
      if ltb (inst.temps_job m1 i) (inst.temps_job m2 i)
      then (1, inst.temps_job m1 i + lag i)
      else (2, inst.temps_job m2 i + lag i)

  -- `remplirTempsArriverDepart`
  unfoldable pub min_departures : ℕ → ℕ
  unfolding dep_loop
  min_departures =
      dep_loop inst inst.nb_job 0 (λ k. if suc k == inst.nb_machines then 0 else 9999999)

  unfoldable pub min_arrivals : ℕ → ℕ
  unfolding arr_loop
  min_arrivals = arr_loop inst inst.nb_job 0 (λ k. if k == 0 then 0 else 9999999)
