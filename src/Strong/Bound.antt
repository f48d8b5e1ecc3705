-- ===== src/Strong/Bound.antt =====
-- bounds/src/bound_fsp_strong.cpp: the bound by pairs of machines. `front` stands for `limite1 + 1`
-- in the arguments.
use pbbperm.Base.{
  ℕ, zero, suc, ◌+◌, ◌-◌, ◌*◌, Bool, true, false, ◌&&◌, not, ltb, leb, ◌==◌, if◌then◌else◌, write,
  ℤ, pos, negsuc,
}
use pbbperm.Flowshop.Vectors.{Instance, eval_solution}
use pbbperm.Strong.Tables.{init_somme}
use pbbperm.Strong.Schedule.{is_zero, set_flags, sort_pairs, strong_front, strong_back}

-- `machine`, `tempsLag` and `tabJohnson`, by pair and job or place
pub record MachinePairs : Type 0 where
  pub machine : ℕ → ℕ
  pub temps_lag : ℕ → ℕ → ℕ
  pub tab_johnson : ℕ → ℕ → ℕ

-- `configureBound`
pub record StrongConfig : Type 0 where
  pub early_exit : Bool
  pub machine_pairs : ℕ

pub record StrongState : Type 0 where
  pub flag : ℕ → ℤ
  pub front : ℕ → ℕ
  pub back : ℕ → ℕ
  pub rewards : ℕ → ℕ
  pub count_machine_pairs : ℕ → ℕ
  pub machine_pair_order : ℕ → ℕ
  pub nbbounds : ℕ

-- `moinsBon > minCmax && minCmax != -1`
unfoldable pub exceeds : ℤ → ℕ → Bool
exceeds (pos c) moins_bon = ltb c moins_bon
exceeds (negsuc zero) moins_bon = false
exceeds (negsuc (suc n)) moins_bon = true

-- `maxLB > UB`
unfoldable pub above : ℤ → ℕ → Bool
above (pos c) max_lb = ltb c max_lb
above (negsuc n) max_lb = true

module _ (inst : Instance) where
  module _ (pairs : MachinePairs) where
    -- `heuristiqueCmax`: the unscheduled jobs of row `ind`, `n` places from `j` on
    unfoldable pub johnson_loop : (ℕ → ℤ) → ℕ → ℕ → ℕ → ℕ → ℕ → ℕ × ℕ → ℕ × ℕ
    unfolding is_zero
    johnson_loop flag ind ma0 ma1 zero j tmp = tmp
    johnson_loop flag ind ma0 ma1 (suc n) j tmp =
        let job_cour = pairs.tab_johnson ind j in
        let tmp0 = tmp.0 + inst.temps_job ma0 job_cour in
        let arrival = tmp0 + pairs.temps_lag ind job_cour in
        let tmp1 =
          if ltb arrival tmp.1
          then tmp.1 + inst.temps_job ma1 job_cour
          else arrival + inst.temps_job ma1 job_cour in
        johnson_loop flag ind ma0 ma1 n (suc j)
          (if is_zero (flag job_cour) then (tmp0, tmp1) else tmp)

    -- `cmaxFin`
    unfoldable pub cmax_fin : (ℕ → ℕ) → ℕ → ℕ → ℕ × ℕ → ℕ
    cmax_fin back ma0 ma1 tmp =
        if ltb (tmp.0 + back ma0) (tmp.1 + back ma1) then tmp.1 + back ma1 else tmp.0 + back ma0

    -- `ma[1]`, which `initCmax` reads
    abbrev pub second_machine : ℕ → ℕ
    second_machine ind = pairs.machine (init_somme inst.nb_machines + ind)

    -- `initCmax`, `heuristiqueCmax` and `cmaxFin` of a pair
    unfoldable pub pair_cost : StrongState → ℕ → ℕ
    unfolding johnson_loop cmax_fin
    pair_cost state ind =
        let ma0 = pairs.machine ind in
        let ma1 = second_machine ind in
        cmax_fin state.back ma0 ma1
          (johnson_loop state.flag ind ma0 ma1 inst.nb_job 0 (state.front ma0, state.front ma1))

    -- The pairs that `borneInfMakespan` leaves out.
    unfoldable pub skipped : ℕ → ℕ → Bool
    unfolding init_somme
    skipped machine_pairs ind =
        let ma0 = pairs.machine ind in
        let ma1 = second_machine ind in
        if machine_pairs == 1
        then ltb ma1 (inst.nb_machines - 1)
        else (if machine_pairs == 2 then not (ma1 == suc ma0) else false)

    -- The largest cost so far, and its pair.
    abbrev pub take_max : StrongState → ℕ → ℕ × ℕ → ℕ × ℕ
    take_max state ind best =
        if ltb best.0 (pair_cost state ind) then (pair_cost state ind, ind) else best

    -- `borneInfMakespan`: `n` pairs from place `l` on
    unfoldable pub makespan_loop : StrongConfig → StrongState → ℤ → ℕ → ℕ → ℕ × ℕ → ℕ × ℕ
    unfolding skipped pair_cost exceeds
    makespan_loop config state min_cmax zero l best = best
    makespan_loop config state min_cmax (suc n) l best =
        let ind = state.machine_pair_order l in
        let next = take_max state ind best in
        if skipped config.machine_pairs ind
        then makespan_loop config state min_cmax n (suc l) best
        else (if exceeds min_cmax next.0
            then next
            else makespan_loop config state min_cmax n (suc l) next)

    -- `borneInfMakespan`: the state with the pairs sorted
    unfoldable pub sorted_by_count : StrongConfig → StrongState → StrongState
    unfolding sort_pairs init_somme
    sorted_by_count config state = record state {
      machine_pair_order =
          if config.early_exit
          then sort_pairs state.count_machine_pairs (init_somme inst.nb_machines - 1) 1
              state.machine_pair_order
          else state.machine_pair_order;
    }

    -- `borneInfMakespan`: the bound, and the state after
    unfoldable pub borne_inf_makespan : StrongConfig → StrongState → ℤ → ℕ × StrongState
    unfolding sorted_by_count init_somme makespan_loop
    borne_inf_makespan config state min_cmax =
        let sorted = sorted_by_count config state in
        let best = makespan_loop config sorted min_cmax (init_somme inst.nb_machines) 0 (0, 0) in
        let count = state.count_machine_pairs in
        (best.0, record sorted { count_machine_pairs = write count best.1 (suc (count best.1)) })

    -- `borneInfLearn`: `n` pairs from place `l` on, with the early exit
    unfoldable pub learn_loop : StrongState → ℤ → Bool → ℕ → ℕ → ℕ × ℕ → ℕ × ℕ
    unfolding pair_cost above
    learn_loop state ub all_pairs zero l best = best
    learn_loop state ub all_pairs (suc n) l best =
        let next = take_max state (state.machine_pair_order l) best in
        if above ub next.0 && not all_pairs
        then next
        else learn_loop state ub all_pairs n (suc l) next

    -- `borneInfLearn`: the state with the pairs sorted and the bound counted
    unfoldable pub sorted_by_reward : StrongState → StrongState
    unfolding sort_pairs init_somme
    sorted_by_reward state =
        let somme = init_somme inst.nb_machines in
        let expired = ltb (100 * 2 * inst.nb_job) state.nbbounds in
        let rewards : ℕ → ℕ =
          λ k. if expired then (if ltb k somme then 0 else state.rewards k) else state.rewards k in
        record state {
          rewards = rewards;
          nbbounds = suc (if expired then 0 else state.nbbounds);
          machine_pair_order = sort_pairs rewards (somme - 1) 1 state.machine_pair_order;
        }

    -- `borneInfLearn`: `nbPairs`, of the state in which the bound is counted
    unfoldable pub pairs_to_try : StrongState → ℕ
    unfolding init_somme
    pairs_to_try sorted =
        if ltb (sorted.nbbounds - 1) (2 * inst.nb_job)
        then init_somme inst.nb_machines
        else inst.nb_machines

    -- `borneInfLearn`: the bound, and the state after
    unfoldable pub borne_inf_learn : StrongState → ℤ → ℕ × StrongState
    unfolding sorted_by_reward pairs_to_try init_somme learn_loop
    borne_inf_learn state ub =
        let sorted = sorted_by_reward state in
        let nb_pairs = pairs_to_try sorted in
        let best =
          learn_loop sorted ub (leb (init_somme inst.nb_machines) nb_pairs) nb_pairs 0 (0, 0) in
        (
          best.0,
          record sorted { rewards = write sorted.rewards best.1 (suc (sorted.rewards best.1)) },
        )

    -- `calculBorne`
    unfoldable pub calcul_borne : StrongConfig → StrongState → ℤ → ℕ × StrongState
    unfolding borne_inf_makespan borne_inf_learn
    calcul_borne config state min_cmax =
        if config.machine_pairs == 3
        then borne_inf_learn state min_cmax
        else borne_inf_makespan config state min_cmax

    -- The state that `bornes_calculer` hands to `calculBorne`.
    unfoldable pub prepared : StrongState → (ℕ → ℕ) → ℕ → ℕ → StrongState
    unfolding set_flags strong_front strong_back
    prepared state permutation front limite2 = record state {
      flag = set_flags inst permutation front limite2 state.flag;
      front = (strong_front inst permutation front 0).0;
      back = (strong_back inst permutation limite2 (strong_front inst permutation front 0).1).0;
    }

    -- `bornes_calculer`: `couts[0]`, `couts[1]` if it is written, and the state after
    unfoldable pub strong_bornes_calculer :
        StrongConfig → StrongState → (ℕ → ℕ) → ℕ → ℕ → ℕ → ℤ → ℕ × ℕ × StrongState
    unfolding prepared calcul_borne eval_solution strong_front strong_back
    strong_bornes_calculer config state permutation front limite2 couts1 best =
        let bounded = calcul_borne config (prepared state permutation front limite2) best in
        if leb limite2 (suc front) then (eval_solution inst permutation, couts1, state) else (
          bounded.0,
          (strong_back inst permutation limite2 (strong_front inst permutation front 0).1).1,
          bounded.1,
        )
