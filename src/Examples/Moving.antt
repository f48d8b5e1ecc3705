-- ===== src/Examples/Moving.antt =====
-- The moves, a local search and the sort on the problem of three jobs and two machines.
use mathlib.Core.List.Perm
use pbbperm.Base.{
  ℕ, ◌-◌, ◌*◌, ◌≡◌, refl, Perm, none, some, arith, ltb, slice, ◌⊎◌, false, true, ℤ, negsuc,
}
use pbbperm.Sorting.{gtb_ℤ, gnome_sort_by_key_inc}
use pbbperm.Sorting.Sorted.{gnome_sort_by_key_inc-sorted}
use pbbperm.Heuristic.Moves.{Fast, Moved, Floats, heads_of, move_first, fast_bre_move}
use pbbperm.Heuristic.Tabu.{add}
use pbbperm.Heuristic.Best.Gains.{NoGain}
use pbbperm.Heuristic.Moves.Orders.{fast_bre_move-Perm}
use pbbperm.Examples.Bounds.{three_jobs, in_order}
use pbbperm.Examples.Heuristics.{blank, no_tabu, little_work}

-- The loss of makespan stands for the quotient, and the first weight is drawn.
abbrev naturals : Floats
naturals = record {
  F = ℕ;
  quotient = λ a b c. a - b;
  greater = λ a b. ltb b a;
  flt_min = 0;
  nothing = 0;
  square = λ a. a * a;
  positive = λ a. ltb 0 a;
  draw = λ n w. 0;
}

abbrev start : Fast
start = record { tables = blank; tabujobs = no_tabu; tabupos = no_tabu }

fast_bre_move-Perm_example :
    let headed = heads_of three_jobs naturals in_order in_order 3 start in
    let first = move_first three_jobs naturals in_order in_order 1 headed.1 in
    ((fast_bre_move three_jobs naturals in_order in_order 1 start ≡ none)
      × (ltb headed.0 first.cmax ≡ true)
      × NoGain three_jobs ℕ naturals.quotient naturals.greater 0 first.perm first.len
          (add 1 first.fast.tabujobs)
          first.fast.tables
          in_order)
    ⊎ ((r : Moved) × (fast_bre_move three_jobs naturals in_order in_order 1 start ≡ some r)
        × Perm (slice 3 0 r.perm) (slice 3 0 in_order)
        × (r.len ≡ 3)
        × (r.fast.tabupos.num ≡ 0))
fast_bre_move-Perm_example =
    fast_bre_move-Perm three_jobs naturals in_order (omega arith) (omega arith) (slice 3 0 in_order)
      little_work in_order 1 start (omega arith) refl (Perm.refl _)

-- The keys are below 0.
abbrev falling : ℕ → ℤ
falling job = negsuc job

gnome_sort_by_key_inc-sorted_example :
    (out : ℕ → ℕ) × (gnome_sort_by_key_inc falling 9 0 2 in_order ≡ some out)
    × (gtb_ℤ (falling (out 0)) (falling (out 1)) ≡ false)
    × Perm (slice 3 0 out) (slice 3 0 in_order)
gnome_sort_by_key_inc-sorted_example =
    gnome_sort_by_key_inc-sorted falling 9 2 0 1 in_order (omega arith) (omega arith) (omega arith)
