-- ===== src/Examples/Bounds.antt =====
-- The weak bound and the nodes of a problem of three jobs on two machines.
use mathlib.Core.List.Perm
use pbbperm.Base.{
  some, ◌*◌, ℕ, ◌+◌, ◌≤◌, ◌≡◌, refl, List, [], ◌∷◌, ◌++◌, Perm, true, arith, All, pos, slice, Any,
  ◌⊎◌,
}
use pbbperm.Flowshop.Vectors.{
  Instance, eval_solution, makespan, schedule_front, schedule_back, sum_unscheduled, remain_loop,
  min_temps_arr, min_temps_dep, arr_loop, arr_round, dep_loop, dep_round, run_in, run_out,
  run_out_gap, push_front, push_back, push_back_gap, front_loop, back_loop,
}
use pbbperm.Flowshop.Weak.{
  Children, children_loop, front_machines, back_machines, compute_partial, add_front_and_bound,
  add_back_and_bound, bound_children, bornes_calculer,
}
use pbbperm.Flowshop.Feasible.{IsFeasible, eval_solution-least}
use pbbperm.Flowshop.Admissible.{IsJob, IsNode, add_front_and_bound-admissible}
use pbbperm.Flowshop.Node.{bornes_calculer-admissible}
use pbbperm.Flowshop.Children.{bound_children_begin-pruning, bound_children_end-pruning}
use pbbperm.Subproblem.{Subproblem, begin_order, end_order, child}
use pbbperm.Subproblem.Child.{fixed_front, open_jobs, fixed_back, child_begin, child_end}
use pbbperm.Branching.{choose_children_set, dir_of}
use pbbperm.Branching.Signed.{choose_branching}
use pbbperm.Branching.Laws.{choose_children_set-choose_branching}
use pbbperm.Solution.{Solution}
use pbbperm.Solution.Best.{Call, update_call, cost_call, call_cost, after_calls, after_calls-best}

abbrev pub three_jobs : Instance
three_jobs = record { nb_job = 3; nb_machines = 2; temps_job = λ machine job. machine + job + 1 }

abbrev pub in_order : ℕ → ℕ
in_order i = i

abbrev leaf : List ℕ
leaf = 0 ∷ 1 ∷ 2 ∷ []

leaf-IsJob : All (IsJob three_jobs) leaf
leaf-IsJob = (omega arith, (omega arith, (omega arith, tt)))

whole : IsNode three_jobs 0 3
whole = record { open_cells = omega arith; in_range = omega arith }

abbrev cells : Children three_jobs
cells = record {
  costs_begin = in_order;
  costs_end = in_order;
  prio_begin = in_order;
  prio_end = in_order;
}

-- The root of the search, with all three jobs open.
abbrev root : Subproblem
root = record { size = 3; schedule = in_order; front = 0; limit2 = 3; cost = 0; ub = 0; depth = 0 }

-- A schedule with ten units of time for each operation.
loose : IsFeasible three_jobs in_order 40 (λ k j. 10 * (k + j))
loose = record {
  route = λ k j hk hj. omega (arith, hk, hj);
  one_by_one = λ k j hk hj. omega (arith, hk, hj);
  done = λ k j hk hj. omega (arith, hk, hj);
}

eval_solution-least_example :
    (eval_solution three_jobs in_order ≤ 40)
    × ((t : ℕ → ℕ → ℕ) × IsFeasible three_jobs in_order (eval_solution three_jobs in_order) t)
eval_solution-least_example =
    eval_solution-least three_jobs in_order 40 (λ k j. 10 * (k + j)) (omega arith) loose

add_front_and_bound-admissible_example :
    (add_front_and_bound three_jobs (compute_partial three_jobs in_order 0 3) 0).0
    ≤ makespan three_jobs leaf
unfolding slice
add_front_and_bound-admissible_example =
    add_front_and_bound-admissible three_jobs in_order leaf 0 3 0 (1 ∷ 2 ∷ []) (omega arith) whole
      (Perm.refl _) refl leaf-IsJob

bornes_calculer-admissible_example :
    bornes_calculer three_jobs in_order 0 3 ≤ makespan three_jobs leaf
unfolding slice
bornes_calculer-admissible_example =
    bornes_calculer-admissible three_jobs in_order leaf 0 3 0 (1 ∷ 2 ∷ []) (omega arith) whole
      (Perm.refl _) refl leaf-IsJob

bound_children_begin-pruning_example : 8 ≤ makespan three_jobs leaf
unfolding slice bound_children children_loop add_front_and_bound add_back_and_bound front_machines
    back_machines compute_partial schedule_front schedule_back sum_unscheduled remain_loop
    min_temps_arr min_temps_dep arr_loop arr_round dep_loop dep_round run_in run_out run_out_gap
    push_front push_back push_back_gap front_loop back_loop
bound_children_begin-pruning_example =
    bound_children_begin-pruning three_jobs true in_order leaf 0 3 cells 0 8 (1 ∷ 2 ∷ [])
      (omega arith) whole (omega arith) (omega arith) (Perm.refl _) leaf-IsJob refl (omega arith)

bound_children_end-pruning_example : 8 ≤ makespan three_jobs leaf
unfolding slice bound_children children_loop add_front_and_bound add_back_and_bound front_machines
    back_machines compute_partial schedule_front schedule_back sum_unscheduled remain_loop
    min_temps_arr min_temps_dep arr_loop arr_round dep_loop dep_round run_in run_out run_out_gap
    push_front push_back push_back_gap front_loop back_loop
bound_children_end-pruning_example =
    bound_children_end-pruning three_jobs in_order leaf 0 3 cells 2 8 (0 ∷ 1 ∷ []) (omega arith)
      whole (omega arith) (omega arith)
      (Perm.trans (Perm.swap 0 2 (1 ∷ [])) (Perm.cons 0 (Perm.swap 1 2 []))) leaf-IsJob refl
      (omega arith)

child_begin_example :
    let c = child root 1 begin_order in
    (fixed_front c ≡ fixed_front root ++ 1 ∷ [])
    × Perm (1 ∷ open_jobs c) (open_jobs root)
    × (fixed_back c ≡ fixed_back root)
child_begin_example = child_begin root 1 (omega arith) (omega arith)

child_end_example :
    let c = child root 1 end_order in
    (fixed_front c ≡ fixed_front root)
    × Perm (1 ∷ open_jobs c) (open_jobs root)
    × (fixed_back c ≡ 1 ∷ fixed_back root)
child_end_example = child_end root 1 (omega arith) (omega arith) (omega arith)

choose_children_set-choose_branching_example :
    choose_children_set (pos 2) 5 3 4 in_order in_order
    ≡ dir_of (choose_branching (pos 2) 3 4 in_order in_order)
choose_children_set-choose_branching_example =
    choose_children_set-choose_branching 2 5 3 4 in_order in_order (omega arith) (omega arith)

abbrev two_calls : List Call
two_calls = update_call (some in_order) 9 ∷ cost_call 7 ∷ []

abbrev no_solution : Solution
no_solution = record { size = 3; cost = 20; perm = in_order }

after_calls-best_example :
    ((after_calls two_calls no_solution).cost ≤ 20)
    × All (λ k. (after_calls two_calls no_solution).cost ≤ call_cost k) two_calls
    × (((after_calls two_calls no_solution).cost ≡ 20)
        ⊎ Any (λ k. (after_calls two_calls no_solution).cost ≡ call_cost k) two_calls)
after_calls-best_example = after_calls-best two_calls no_solution
