-- ===== src/Examples/Heuristics.antt =====
-- The insertion heuristics on the problem of three jobs and two machines.
use pbbperm.Base.{
  ℕ, suc, ◌+◌, ◌-◌, ◌≤◌, ◌<◌, ◌≡◌, refl, Perm, none, some, true, false, arith, ltb, slice, ◌⊎◌,
}
use pbbperm.Flowshop.Vectors.{makespan, int_max}
use pbbperm.Heuristic.Tables.{Tables}
use pbbperm.Heuristic.Tabu.{Tabu, is_tabu, listed, rem, rem-is_tabu}
use pbbperm.Heuristic.Edits.{insert, block_insert, remove}
use pbbperm.Heuristic.Orders.{remove-insert}
use pbbperm.Heuristic.Makespans.{insert_makespans, remove_makespans}
use pbbperm.Heuristic.Makespans.Entries.{insert_makespans-makespan}
use pbbperm.Heuristic.Makespans.Removals.{remove_makespans-makespan}
use pbbperm.Heuristic.Best.{best_insert, best_block_insert, Removed, best_remove, sum_pt}
use pbbperm.Heuristic.Best.Choice.{best_insert-least, best_insert-all_tabu, best_block_insert-least}
use pbbperm.Heuristic.Best.Removal.{best_remove-makespan}
use pbbperm.Heuristic.Neh.{insert_job_in_best_position, run_neh}
use pbbperm.Heuristic.Neh.Work.{work}
use pbbperm.Heuristic.Neh.Keeps.{insert_job_in_best_position-least, run_neh-Perm}
use pbbperm.Examples.Bounds.{three_jobs, in_order}

-- Tables that no call has written.
abbrev pub blank : Tables
blank = record { head = λ k j. 0; tail = λ k j. 0; inser = λ k j. 0 }

abbrev pub no_tabu : Tabu
no_tabu = record { nmax = 3; num = 0; arr = in_order }

-- The positions 0 and 1 are tabu.
abbrev two_tabu : Tabu
two_tabu = record { nmax = 3; num = 2; arr = in_order }

insert_makespans-makespan_example :
    ((insert_makespans three_jobs in_order 2 2 blank in_order).1 2
      ≡ makespan three_jobs (slice 3 0 (insert in_order 2 2 2).0))
    × ((insert_makespans three_jobs in_order 2 2 blank in_order).2
        ≡ makespan three_jobs (slice 2 0 in_order))
insert_makespans-makespan_example =
    insert_makespans-makespan three_jobs in_order 2 2 blank in_order 2 (omega arith) (omega arith)
      (omega arith) (λ e k hk. refl)

remove_makespans-makespan_example :
    ((remove_makespans three_jobs in_order 3 blank in_order).1 1
      ≡ makespan three_jobs (slice (3 - 1) 0 (remove in_order 3 1).1))
    × ((remove_makespans three_jobs in_order 3 blank in_order).2
        ≡ makespan three_jobs (slice 3 0 in_order))
remove_makespans-makespan_example =
    remove_makespans-makespan three_jobs in_order 3 blank in_order 1 (omega arith) (omega arith)
      (omega arith)

best_insert-least_example :
    (((best_insert three_jobs in_order 2 2 no_tabu blank).pos ≡ none)
      × ((best_insert three_jobs in_order 2 2 no_tabu blank).perm ≡ in_order)
      × (int_max ≤ makespan three_jobs (slice 3 0 (insert in_order 2 1 2).0)))
    ⊎ ((p : ℕ) × ((best_insert three_jobs in_order 2 2 no_tabu blank).pos ≡ some p)
        × (p ≤ 2)
        × (is_tabu no_tabu p ≡ false)
        × ((best_insert three_jobs in_order 2 2 no_tabu blank).perm ≡ (insert in_order 2 p 2).0)
        × ((best_insert three_jobs in_order 2 2 no_tabu blank).cmax
            ≡ makespan three_jobs
                (slice 3 0 (best_insert three_jobs in_order 2 2 no_tabu blank).perm))
        × ((best_insert three_jobs in_order 2 2 no_tabu blank).cmax
            ≤ makespan three_jobs (slice 3 0 (insert in_order 2 1 2).0)))
unfolding is_tabu listed
best_insert-least_example =
    best_insert-least three_jobs in_order 2 2 no_tabu blank (omega arith) (omega arith)
      (λ k hk. refl) 1 (omega arith) refl

both_tabu : (i : ℕ) → i ≤ 1 → is_tabu two_tabu i ≡ true
unfolding is_tabu listed
both_tabu i h = ground arith

best_insert-all_tabu_example :
    ((best_insert three_jobs in_order 1 2 two_tabu blank).pos ≡ none)
    × ((best_insert three_jobs in_order 1 2 two_tabu blank).perm ≡ in_order)
    × ((best_insert three_jobs in_order 1 2 two_tabu blank).len ≡ 1)
    × ((best_insert three_jobs in_order 1 2 two_tabu blank).cmax ≡ int_max)
best_insert-all_tabu_example = best_insert-all_tabu three_jobs in_order 1 2 two_tabu blank both_tabu

best_block_insert-least_example :
    ((best_block_insert three_jobs in_order 1 (λ b. b + 1) 2 no_tabu blank (λ i. 0)
        ≡ (in_order, int_max))
      × (int_max ≤ makespan three_jobs (slice 3 0 (block_insert 2 0 in_order 1 0 (λ b. b + 1)).0)))
    ⊎ (((best_block_insert three_jobs in_order 1 (λ b. b + 1) 2 no_tabu blank (λ i. 0)).1
          ≡ makespan three_jobs (
              slice 3 0
                (best_block_insert three_jobs in_order 1 (λ b. b + 1) 2 no_tabu blank (λ i. 0)).0))
        × ((best_block_insert three_jobs in_order 1 (λ b. b + 1) 2 no_tabu blank (λ i. 0)).1
            ≤ makespan three_jobs (slice 3 0 (block_insert 2 0 in_order 1 0 (λ b. b + 1)).0)))
unfolding is_tabu listed
best_block_insert-least_example =
    best_block_insert-least three_jobs in_order 1 (λ b. b + 1) 2 no_tabu blank (λ i. 0) 0
      (omega arith) (omega arith) refl (omega arith) refl

-- The loss of makespan alone stands for the quotient.
best_remove-makespan_example :
    (best_remove three_jobs ℕ (λ a b c. a - b) (λ a b. ltb b a) 0 in_order 3 no_tabu blank in_order
      ≡ none)
    ⊎ ((r : Removed) × (best_remove three_jobs ℕ
            (λ a b c. a - b)
            (λ a b. ltb b a)
            0
            in_order
            3
            no_tabu
            blank
            in_order
          ≡ some r)
        × (r.pos < 3)
        × (r.remjob ≡ in_order r.pos)
        × (is_tabu no_tabu r.remjob ≡ false)
        × (r.perm ≡ (remove in_order 3 r.pos).1)
        × (suc r.len ≡ 3)
        × (r.cmax ≡ makespan three_jobs (slice r.len 0 r.perm)))
best_remove-makespan_example =
    best_remove-makespan three_jobs ℕ (λ a b c. a - b) (λ a b. ltb b a) 0 in_order 3 no_tabu blank
      in_order (omega arith) (omega arith)

pub little_work : work three_jobs (slice 3 0 in_order) < int_max
unfolding work slice sum_pt
little_work = omega arith

insert_job_in_best_position-least_example :
    makespan three_jobs (slice 3 0 (insert_job_in_best_position three_jobs in_order 2 blank 0).0)
    ≤ makespan three_jobs (slice 3 0 (insert in_order 2 1 (in_order 2)).0)
insert_job_in_best_position-least_example =
    insert_job_in_best_position-least three_jobs (omega arith) in_order 2 blank 0 (omega arith) 3 1
      (omega arith) little_work (λ l hl. refl) (omega arith)

run_neh-Perm_example :
    Perm (slice 3 0 (run_neh three_jobs in_order blank 0).0) (slice 3 0 in_order)
    × ((run_neh three_jobs in_order blank 0).1
        ≡ makespan three_jobs (slice 3 0 (run_neh three_jobs in_order blank 0).0))
run_neh-Perm_example =
    run_neh-Perm three_jobs in_order blank 0 (omega arith) (omega arith) little_work

remove-insert_example :
    ((remove (insert in_order 2 1 7).0 (insert in_order 2 1 7).1 1).0 ≡ 7)
    × (slice 2 0 (remove (insert in_order 2 1 7).0 (insert in_order 2 1 7).1 1).1
        ≡ slice 2 0 in_order)
    × ((remove (insert in_order 2 1 7).0 (insert in_order 2 1 7).1 1).2 ≡ 2)
remove-insert_example = remove-insert in_order 2 1 7 (omega arith)

rem-is_tabu_example :
    ((rem 1 two_tabu ≡ none) × (is_tabu two_tabu 1 ≡ false))
    ⊎ ((t : Tabu) × (rem 1 two_tabu ≡ some t) × (is_tabu two_tabu 1 ≡ true) × (suc t.num ≡ 2))
rem-is_tabu_example = rem-is_tabu 1 two_tabu
