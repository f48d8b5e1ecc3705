-- ===== src/Strong/Admissible.antt =====
-- bounds/src/bound_fsp_strong.cpp: the bound of a node never exceeds the makespan of a completion.
use mathlib.Core.List.Perm
use pbbperm.Base.{
  ℕ, zero, suc, ◌+◌, ◌-◌, ◌≤◌, ◌<◌, ◌≡◌, refl, ap, ◌∙◌, sym, subst, List, [], ◌∷◌, ◌++◌, Perm,
  arith, leb, if◌then◌else◌, Bool, true, false, Bool-cases, inl, inr, ℤ, slice, All,
  All-append_right, ◌==◌, ℕ_discrete,
}
use pbbperm.Flowshop.Vectors.{Instance, push_front, push_back, heads, tails, makespan, load}
use pbbperm.Flowshop.Paths.{start, push_front-start, Fits}
use pbbperm.Flowshop.Least.{dep_loop-Fits, zero-Fits, start-arr_loop-le}
use pbbperm.Flowshop.Lists.{tails-append, load-perm}
use pbbperm.Flowshop.Admissible.{IsJob, leaf-heads}
use pbbperm.Base.{slice-snoc}
use pbbperm.Strong.Tables.{init_somme, lag_sum, min_departures, min_arrivals}
use pbbperm.Strong.Schedule.{set_flags, front_and_idle, strong_front, back_and_idle, strong_back}
use pbbperm.Strong.Bound.{
  MachinePairs, StrongConfig, StrongState, second_machine, cmax_fin, pair_cost, prepared,
  strong_bornes_calculer,
}
use pbbperm.Strong.Johnson.{finish, IsSorted, finish-least}
use pbbperm.Strong.Pairs.{
  unscheduled, finish-le-heads, add_load-le-heads, johnson_loop-finish, heads-tails-le, heads_le,
}
use pbbperm.Strong.Flags.{IsSchedule, unscheduled-perm, unscheduled-IsSorted, set_flags-unscheduled}
use pbbperm.Strong.Loops.{InRange, calcul_borne-le}

-- The arrays that `initialiserVar` fills: pairs of machines, the first before the second, their lags,
-- and rows that hold all jobs, sorted by Johnson's rule.
pub record IsPairs (inst : Instance) (pairs : MachinePairs) : Type 0 where
  pub ordered :
      (ind : ℕ)
      → ind < init_somme inst.nb_machines
      → pairs.machine ind < second_machine inst pairs ind
  pub in_range :
      (ind : ℕ)
      → ind < init_somme inst.nb_machines
      → second_machine inst pairs ind < inst.nb_machines
  pub lags :
      (ind job : ℕ)
      → ind < init_somme inst.nb_machines
      → pairs.temps_lag ind job
        ≡ lag_sum inst
            (second_machine inst pairs ind - suc (pairs.machine ind))
            (suc (pairs.machine ind))
            job
            0
  pub sorted :
      (ind : ℕ)
      → ind < init_somme inst.nb_machines
      → IsSorted inst
          (pairs.machine ind)
          (second_machine inst pairs ind)
          (pairs.temps_lag ind)
          (slice inst.nb_job 0 (pairs.tab_johnson ind))
  pub orders :
      (ind : ℕ)
      → ind < init_somme inst.nb_machines
      → Perm (slice inst.nb_job 0 (pairs.tab_johnson ind)) (slice inst.nb_job 0 (λ i. i))

module _ (inst : Instance) where
  front_and_idle-heads :
      (n j : ℕ) (permutation f : ℕ → ℕ) (idle : ℕ)
      → (front_and_idle inst n j permutation (f, idle)).0 ≡ heads inst f (slice n j permutation)
  unfolding front_and_idle heads slice
  front_and_idle-heads zero j permutation f idle = refl
  front_and_idle-heads (suc n) j permutation f idle =
      front_and_idle-heads n (suc j) permutation (push_front inst (permutation j) f) _

  back_and_idle-tails :
      (n low : ℕ) (permutation b : ℕ → ℕ) (idle : ℕ)
      → (back_and_idle inst n low permutation (b, idle)).0 ≡ tails inst b (slice n low permutation)
  unfolding back_and_idle tails slice
  back_and_idle-tails zero low permutation b idle = refl
  back_and_idle-tails (suc n) low permutation b idle =
      back_and_idle-tails n low permutation (push_back inst (permutation (low + n)) b) _
      ∙ sym (
          ap (tails inst b) (slice-snoc n low permutation)
          ∙ tails-append inst (slice n low permutation) (permutation (low + n) ∷ []) b)

  pick_vector : (b : Bool) (p q : (ℕ → ℕ) × ℕ) → (if b then p else q).0 ≡ (if b then p.0 else q.0)
  pick_vector true p q = refl
  pick_vector false p q = refl

  strong_front-start-le :
      (permutation : ℕ → ℕ) (front idle job j : ℕ)
      → IsJob inst job
      → start inst job (strong_front inst permutation front idle).0 j
        ≤ start inst job (heads inst (λ k. 0) (slice front 0 permutation)) j
  unfolding strong_front heads slice min_arrivals
  strong_front-start-le permutation front idle job j ok = elim (ℕ_discrete front 0) [
    | yes none_before ↦ rw none_before (start-arr_loop-le inst 9999999 job ok j)
    | no some_before ↦
        let test : (front == 0) ≡ false = ground arith in
        rw (test, front_and_idle-heads front 0 permutation (λ k. 0) idle) (omega arith)
  ]

  strong_back-tails :
      (permutation : ℕ → ℕ) (limite2 idle : ℕ)
      → limite2 ≤ inst.nb_job
      → (b : ℕ → ℕ) × Fits inst b (IsJob inst)
        × ((strong_back inst permutation limite2 idle).0
            ≡ tails inst b (slice (inst.nb_job - limite2) limite2 permutation))
  unfolding strong_back tails slice min_departures
  strong_back-tails permutation limite2 idle h = elim (Bool-cases (limite2 == inst.nb_job)) [
    | inl none_behind ↦
        let e : inst.nb_job - limite2 ≡ 0 = ground arith in
        (min_departures inst, dep_loop-Fits inst 9999999, rw (none_behind, e) refl)
    | inr some_behind ↦ (
      (λ j. 0),
      zero-Fits inst (IsJob inst),
      rw some_behind
          (back_and_idle-tails (inst.nb_job - limite2) limite2 permutation (λ j. 0) idle),
    )
  ]

  cmax_fin-le :
      (pairs : MachinePairs) (back : ℕ → ℕ) (ma0 ma1 t0 t1 x : ℕ)
      → t0 + back ma0 ≤ x
      → t1 + back ma1 ≤ x
      → cmax_fin inst pairs back ma0 ma1 (t0, t1) ≤ x
  unfolding cmax_fin
  cmax_fin-le pairs back ma0 ma1 t0 t1 x h0 h1 = ground arith

  module _ (pairs : MachinePairs) (filled : IsPairs inst pairs) (state : StrongState)
      (permutation : ℕ → ℕ) (front limite2 job : ℕ) (rest : List ℕ) (ordered : front ≤ limite2)
      (inside : limite2 ≤ inst.nb_job) (schedule : IsSchedule inst permutation)
      (order : Perm (slice inst.nb_job 0 permutation) (slice inst.nb_job 0 (λ i. i)))
      (open_jobs : Perm (job ∷ rest) (slice (limite2 - front) front permutation))
      (ok : All (IsJob inst) (
        slice front 0 permutation
        ++ ((job ∷ rest) ++ slice (inst.nb_job - limite2) limite2 permutation))) where
    abbrev leaf : List ℕ
    leaf =
        slice front 0 permutation
        ++ ((job ∷ rest) ++ slice (inst.nb_job - limite2) limite2 permutation)

    -- The cost of a pair is at most the makespan of the leaf.
    pair_cost-le :
        (ind : ℕ)
        → ind < init_somme inst.nb_machines
        → pair_cost inst pairs (prepared inst pairs state permutation front limite2) ind
          ≤ makespan inst leaf
    unfolding pair_cost prepared
    pair_cost-le ind h =
        let u = pairs.machine ind in
        let v = second_machine inst pairs ind in
        let lag = pairs.temps_lag ind in
        let f = (strong_front inst permutation front 0).0 in
        let idle = (strong_front inst permutation front 0).1 in
        let before = slice front 0 permutation in
        let after = slice (inst.nb_job - limite2) limite2 permutation in
        let real = heads inst (λ k. 0) before in
        let flag = set_flags inst permutation front limite2 state.flag in
        let row = slice inst.nb_job 0 (pairs.tab_johnson ind) in
        let todo = unscheduled flag row in
        let jobs = All-append_right (IsJob inst) before ((job ∷ rest) ++ after) ok in
        let (b, fits, back) = strong_back-tails permutation limite2 idle inside in
        let same : Perm todo (job ∷ rest) =
          Perm.trans (unscheduled-perm flag (Perm.trans (filled.orders ind h) (Perm.symm order))) (
            Perm.trans
              (subst (Perm (unscheduled flag (slice inst.nb_job 0 permutation)))
                (set_flags-unscheduled inst permutation front limite2 ordered inside schedule
                  state.flag)
                (Perm.refl _))
              (Perm.symm open_jobs)) in
        let best : finish inst u v lag todo (f u) (f v)
            ≤ finish inst u v lag (job ∷ rest) (f u) (f v) =
          finish-least inst u v lag todo (job ∷ rest) (f u) (f v)
            (unscheduled-IsSorted flag inst u v lag row (filled.sorted ind h)) same in
        let later : (j : ℕ) → heads inst f (job ∷ rest) j ≤ heads inst real (job ∷ rest) j =
          unfold heads in
          heads_le inst rest (push_front inst job f) (push_front inst job real) (λ j. omega (
            arith,
            push_front-start inst job f j,
            push_front-start inst job real j,
            strong_front-start-le permutation front 0 job j jobs.0,
          )) in
        let total : makespan inst leaf
            ≡ heads inst real ((job ∷ rest) ++ after) (inst.nb_machines - 1) =
          leaf-heads inst leaf before ((job ∷ rest) ++ after) refl in
        let room : (j : ℕ)
            → j < inst.nb_machines
            → heads inst real (job ∷ rest) j + (strong_back inst permutation limite2 idle).0 j
              ≤ makespan inst leaf =
          λ j hj. omega (
            arith,
            total,
            ap (λ t. t j) back,
            heads-tails-le inst b (IsJob inst) fits job rest after real jobs j hj,
          ) in
        let second : finish inst u v lag (job ∷ rest) (f u) (f v) ≤ heads inst f (job ∷ rest) v =
          finish-le-heads inst u v (filled.ordered ind h) lag (λ i. filled.lags ind i h)
            (job ∷ rest) f (f u) (f v) (omega arith) (omega arith) in
        let cost =
          cmax_fin-le pairs (strong_back inst permutation limite2 idle).0 u v
            (f u + load inst u todo) (finish inst u v lag todo (f u) (f v)) (makespan inst leaf)
            (omega (
              arith,
              load-perm inst u same,
              add_load-le-heads inst (job ∷ rest) f u,
              later u,
              room u (omega (arith, filled.ordered ind h, filled.in_range ind h)),
            ))
            (omega (arith, best, second, later v, room v (filled.in_range ind h))) in
        subst
          (λ t.
            cmax_fin inst pairs (strong_back inst permutation limite2 idle).0 u v t
            ≤ makespan inst leaf)
          (sym (johnson_loop-finish inst pairs flag ind u v inst.nb_job 0 (f u, f v))) cost

    -- The strong bound of a node with two open jobs at least is at most the makespan of every leaf
    -- below the node, whatever the counts, the best cost and the settings. Conditions: there are
    -- three machines at least, the arrays of `initialiserVar` are filled, the places of the pairs
    -- hold pairs, the cells of the node hold the jobs of the instance, each once, and the leaf is the
    -- front, the open jobs in any order, and the back.
    pub strong_bornes_calculer-admissible :
        (config : StrongConfig) (couts1 : ℕ) (best : ℤ)
        → 3 ≤ inst.nb_machines
        → suc front < limite2
        → InRange (init_somme inst.nb_machines) state.machine_pair_order
        → (strong_bornes_calculer inst pairs config state permutation front limite2 couts1 best).0
          ≤ makespan inst (
              slice front 0 permutation
              ++ ((job ∷ rest) ++ slice (inst.nb_job - limite2) limite2 permutation))
    unfolding strong_bornes_calculer
    strong_bornes_calculer-admissible config couts1 best three inner places =
        let node = prepared inst pairs state permutation front limite2 in
        let inner_node : leb limite2 (suc front) ≡ false = ground arith in
        rw inner_node (
          calcul_borne-le inst pairs (makespan inst leaf) node (unfold prepared in places) config
            best three pair_cost-le)
