-- ===== src/Strong/Loops.antt =====
-- bounds/src/bound_fsp_strong.cpp: the loops over the pairs stay at most at a value that bounds the
-- cost of each pair.
use pbbperm.Base.{
  ℕ, zero, suc, ◌+◌, ◌-◌, ◌≤◌, ◌<◌, ◌≡◌, refl, ap, arith, ltb, leb, if◌then◌else◌, Bool, true,
  false, ◌&&◌, not, write, ℤ, ◌==◌,
}
use pbbperm.Flowshop.Vectors.{Instance}
use pbbperm.Strong.Tables.{sum_from, init_somme}
use pbbperm.Strong.Schedule.{move_down, sort_pairs}
use pbbperm.Strong.Bound.{
  MachinePairs, StrongConfig, StrongState, exceeds, above, pair_cost, skipped, take_max,
  makespan_loop, sorted_by_count, sorted_by_reward, pairs_to_try, borne_inf_makespan, learn_loop,
  borne_inf_learn, calcul_borne,
}

-- The places of the pairs hold pairs.
abbrev pub InRange : ℕ → (ℕ → ℕ) → Type 0
InRange somme order = (l : ℕ) → l < somme → order l < somme

pick-InRange :
    (somme : ℕ) (b : Bool) (p q : ℕ → ℕ)
    → InRange somme p
    → InRange somme q
    → InRange somme (if b then p else q)
pick-InRange somme true p q hp hq = hp
pick-InRange somme false p q hp hq = hq

move_down-InRange :
    (somme : ℕ) (key : ℕ → ℕ) (i : ℕ) (order : ℕ → ℕ)
    → i < somme
    → InRange somme order
    → InRange somme (move_down key i order)
unfolding move_down
move_down-InRange somme key zero order h ok = ok
move_down-InRange somme key (suc i) order h ok =
    pick-InRange somme (ltb (key (order i)) (key (order (suc i)))) _ order
      (move_down-InRange somme key i (write (write order i (order (suc i))) (suc i) (order i))
        (omega arith) (λ l hl. ground (arith, ok l hl, ok i (omega arith), ok (suc i) h)))
      ok

pub sort_pairs-InRange :
    (somme : ℕ) (key : ℕ → ℕ) (n i : ℕ) (order : ℕ → ℕ)
    → i + n ≤ somme
    → InRange somme order
    → InRange somme (sort_pairs key n i order)
unfolding sort_pairs
sort_pairs-InRange somme key zero i order h ok = ok
sort_pairs-InRange somme key (suc n) i order h ok =
    sort_pairs-InRange somme key n (suc i) (move_down key i order) (omega arith)
      (move_down-InRange somme key i order (omega arith) ok)

sum_from-ge : (n i somme : ℕ) → 0 < i → somme + n ≤ sum_from n i somme
unfolding sum_from
sum_from-ge zero i somme h = omega arith
sum_from-ge (suc n) i somme h = omega (arith, sum_from-ge n (suc i) (somme + i) (omega arith))

-- With three machines there are at least as many pairs as machines.
pub init_somme-ge : (m : ℕ) → 3 ≤ m → m ≤ init_somme m
unfolding init_somme sum_from
init_somme-ge m h =
    let n = m - 3 in
    let e : m - 1 ≡ suc (suc n) = omega arith in
    omega (arith, ap (λ k. sum_from k 1 0) e, sum_from-ge n 3 (0 + 1 + 2) (omega arith))

module _ (inst : Instance) (pairs : MachinePairs) (x : ℕ) where
  pick-le : (b : Bool) (p q : ℕ × ℕ) → p.0 ≤ x → q.0 ≤ x → (if b then p else q).0 ≤ x
  pick-le true p q hp hq = hp
  pick-le false p q hp hq = hq

  pick_state-le :
      (b : Bool) (p q : ℕ × StrongState) → p.0 ≤ x → q.0 ≤ x → (if b then p else q).0 ≤ x
  pick_state-le true p q hp hq = hp
  pick_state-le false p q hp hq = hq

  makespan_loop-le :
      (config : StrongConfig) (state : StrongState) (min_cmax : ℤ) (n l : ℕ) (best : ℕ × ℕ)
      → ((k : ℕ) → l ≤ k → k < l + n → pair_cost inst pairs state (state.machine_pair_order k) ≤ x)
      → best.0 ≤ x
      → (makespan_loop inst pairs config state min_cmax n l best).0 ≤ x
  unfolding makespan_loop
  makespan_loop-le config state min_cmax zero l best costs h = h
  makespan_loop-le config state min_cmax (suc n) l best costs h =
      let ind = state.machine_pair_order l in
      let next = take_max inst pairs state ind best in
      let small : next.0 ≤ x =
        pick-le (ltb best.0 (pair_cost inst pairs state ind)) (pair_cost inst pairs state ind, ind)
          best (costs l (omega arith) (omega arith)) h in
      let rest : (b : ℕ × ℕ)
          → b.0 ≤ x
          → (makespan_loop inst pairs config state min_cmax n (suc l) b).0 ≤ x =
        λ b hb.
          makespan_loop-le config state min_cmax n (suc l) b
            (λ k lo hi. costs k (omega arith) (omega arith)) hb in
      pick-le (skipped inst pairs config.machine_pairs ind) _ _ (rest best h)
        (pick-le (exceeds min_cmax next.0) next _ small (rest next small))

  learn_loop-le :
      (state : StrongState) (ub : ℤ) (all_pairs : Bool) (n l : ℕ) (best : ℕ × ℕ)
      → ((k : ℕ) → l ≤ k → k < l + n → pair_cost inst pairs state (state.machine_pair_order k) ≤ x)
      → best.0 ≤ x
      → (learn_loop inst pairs state ub all_pairs n l best).0 ≤ x
  unfolding learn_loop
  learn_loop-le state ub all_pairs zero l best costs h = h
  learn_loop-le state ub all_pairs (suc n) l best costs h =
      let ind = state.machine_pair_order l in
      let next = take_max inst pairs state ind best in
      let small : next.0 ≤ x =
        pick-le (ltb best.0 (pair_cost inst pairs state ind)) (pair_cost inst pairs state ind, ind)
          best (costs l (omega arith) (omega arith)) h in
      pick-le (above ub next.0 && not all_pairs) next _ small (
        learn_loop-le state ub all_pairs n (suc l) next
          (λ k lo hi. costs k (omega arith) (omega arith)) small)

  module _ (state : StrongState)
      (ok : InRange (init_somme inst.nb_machines) state.machine_pair_order) where
    sorted_by_count-InRange :
        (config : StrongConfig)
        → InRange
            (init_somme inst.nb_machines)
            (sorted_by_count inst pairs config state).machine_pair_order
    unfolding sorted_by_count
    sorted_by_count-InRange config =
        pick-InRange (init_somme inst.nb_machines) config.early_exit _ state.machine_pair_order
          (λ l hl.
            sort_pairs-InRange (init_somme inst.nb_machines) state.count_machine_pairs
              (init_somme inst.nb_machines - 1) 1 state.machine_pair_order (omega arith) ok l hl)
          ok

    sorted_by_reward-InRange :
        InRange (init_somme inst.nb_machines) (sorted_by_reward inst pairs state).machine_pair_order
    unfolding sorted_by_reward
    sorted_by_reward-InRange l hl =
        sort_pairs-InRange (init_somme inst.nb_machines) (sorted_by_reward inst pairs state).rewards
          (init_somme inst.nb_machines - 1) 1 state.machine_pair_order (omega arith) ok l hl

    sorted-pair_cost :
        (config : StrongConfig) (ind : ℕ)
        → (pair_cost inst pairs (sorted_by_count inst pairs config state) ind
            ≡ pair_cost inst pairs state ind)
          × (pair_cost inst pairs (sorted_by_reward inst pairs state) ind
              ≡ pair_cost inst pairs state ind)
    unfolding sorted_by_count sorted_by_reward pair_cost
    sorted-pair_cost config ind = (refl, refl)

    pairs_to_try-le :
        3 ≤ inst.nb_machines
        → pairs_to_try inst pairs (sorted_by_reward inst pairs state) ≤ init_somme inst.nb_machines
    unfolding pairs_to_try
    pairs_to_try-le three = ground (arith, init_somme-ge inst.nb_machines three)

    -- The bound is at most a value that bounds the cost of each pair.
    pub calcul_borne-le :
        (config : StrongConfig) (best : ℤ)
        → 3 ≤ inst.nb_machines
        → ((ind : ℕ) → ind < init_somme inst.nb_machines → pair_cost inst pairs state ind ≤ x)
        → (calcul_borne inst pairs config state best).0 ≤ x
    unfolding calcul_borne borne_inf_makespan borne_inf_learn
    calcul_borne-le config best three costs =
        let sorted = sorted_by_reward inst pairs state in
        let counted = sorted_by_count inst pairs config state in
        let nb_pairs = pairs_to_try inst pairs sorted in
        pick_state-le (config.machine_pairs == 3) (borne_inf_learn inst pairs state best)
          (borne_inf_makespan inst pairs config state best)
          (learn_loop-le sorted best (leb (init_somme inst.nb_machines) nb_pairs) nb_pairs 0 (0, 0)
            (λ k lo hi.
              let place = sorted_by_reward-InRange k (omega (arith, pairs_to_try-le three)) in
              omega (
                arith,
                (sorted-pair_cost config (sorted.machine_pair_order k)).1,
                costs (sorted.machine_pair_order k) place,
              ))
            (omega arith))
          (makespan_loop-le config counted best (init_somme inst.nb_machines) 0 (0, 0)
            (λ k lo hi.
              let place = sorted_by_count-InRange config k (omega arith) in
              omega (
                arith,
                (sorted-pair_cost config (counted.machine_pair_order k)).0,
                costs (counted.machine_pair_order k) place,
              ))
            (omega arith))
