-- ===== src/Examples/Search.antt =====
-- A search over two jobs on one machine.
use mathlib.Core.List.{append-nil}
use mathlib.Core.List.Perm
use pbbperm.Base.{
  ℕ, ◌+◌, ◌≤◌, ◌≡◌, refl, List, [], Perm, arith, All, Any, pos, slice, some, ◌⊎◌, true, false, sym,
  subst, ◌∙◌,
}
use pbbperm.Flowshop.Vectors.{makespan}
use pbbperm.Flowshop.Admissible.{IsJob}
use pbbperm.Subproblem.{Subproblem, leaf}
use pbbperm.Tree.{Config, Tree, run, set_root, decompose_fast}
use pbbperm.Tree.Below.{Below}
use pbbperm.Tree.Cover.{IsValid}
use pbbperm.Tree.Measure.{weight, weight-suc, weight_zero}
use pbbperm.Tree.Decompose.{decompose_fast-cover}
use pbbperm.Tree.Run.{run-set_root}
use pbbperm.Tree.Search.{IsIncumbent}

abbrev in_order : ℕ → ℕ
in_order i = i

abbrev config : Config
config = record {
  inst = record { nb_job = 2; nb_machines = 1; temps_job = λ machine job. job + 1 };
  branching_mode = pos 2;
  single_node = true;
  memory = in_order;
}

-- The tree before the root is set.
abbrev fresh : Tree
fresh = record {
  deq = [];
  local_best = 100;
  initial_ub = 100;
  sltn = record { size = 2; cost = 100; perm = in_order };
  found_solution = false;
  prio_fwd = in_order;
  prio_bwd = in_order;
  leaves = 0;
  tot_decomposed = 0;
  simple_bounds = 0;
}

abbrev order : List ℕ
order = slice 2 0 in_order

order-IsJob : All (IsJob config.inst) order
unfolding slice
order-IsJob = (omega arith, (omega arith, tt))

weight_two : weight 2 ≡ 5
weight_two = omega (arith, weight-suc 1, weight-suc 0, weight_zero)

run-set_root_example :
    (r : Tree) × (run 6 config (set_root config in_order fresh) ≡ some r)
    × (r.deq ≡ [])
    × (r.sltn.cost ≤ makespan config.inst order)
    × IsIncumbent config order fresh.sltn r.sltn
run-set_root_example =
    run-set_root config in_order fresh 6 order (omega arith) (omega arith) refl refl (omega arith)
      (omega (arith, weight_two)) order-IsJob (Perm.refl order)

-- The root of two jobs.
abbrev root : Subproblem
root = record { size = 2; schedule = in_order; front = 0; limit2 = 2; cost = 0; ub = 0; depth = 0 }

root-IsValid : IsValid config.inst order root
unfolding slice
root-IsValid = record {
  size = refl;
  opens = omega arith;
  room = omega arith;
  under = λ jobs b. subst (λ l. Perm l order) (sym (b.shape ∙ append-nil b.middle)) b.order;
  bound = λ jobs ok b. omega arith;
  exact = λ one. absurd (omega arith);
}

root-Below_order : Below root order
unfolding slice
root-Below_order = record { middle = order; shape = refl; order = Perm.refl order }

decompose_fast-cover_example :
    (100 ≤ makespan config.inst order)
    ⊎ Any (λ m. Below m order) (decompose_fast config root fresh).0
unfolding leaf
decompose_fast-cover_example =
    decompose_fast-cover config order (omega arith) root root-IsValid fresh order refl order-IsJob
      root-Below_order
