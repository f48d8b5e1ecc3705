-- ===== src/Heuristic/Makespans/Removals.antt =====
-- heuristic/src/fastinsertremove.cpp: the entries of `removeMakespans` are the makespans of the
-- schedules that `remove` produces.
use pbbperm.Base.{ℕ, suc, ◌+◌, ◌-◌, ◌<◌, ◌≡◌, refl, ap, ◌∙◌, arith, slice, write, ℕ_discrete}
use pbbperm.Flowshop.Vectors.{Instance, heads, tails, makespan}
use pbbperm.Heuristic.Tables.{Tables, compute_heads, compute_tails}
use pbbperm.Heuristic.Heads.{head_value, compute_heads-value}
use pbbperm.Heuristic.Tails.{tail_value, compute_tails-value}
use pbbperm.Heuristic.Edits.{remove, remove-slice}
use pbbperm.Heuristic.Peak.{peak, peak_congr, makespan-append-peak}
use pbbperm.Heuristic.Makespans.{fill, remove_makespans}
use pbbperm.Heuristic.Makespans.Entries.{fill-cell, compute_heads-makespan}

module _ (inst : Instance) (perm : ℕ → ℕ) (len : ℕ) where
  -- Each entry of `removeMakespans` is the makespan of the schedule after that removal, and its
  -- result is the makespan before. Conditions: the permutation has at least two jobs, and there is
  -- a machine.
  pub remove_makespans-makespan :
      (tables : Tables) (makespans : ℕ → ℕ) (i : ℕ)
      → 1 < len
      → 0 < inst.nb_machines
      → i < len
      → ((remove_makespans inst perm len tables makespans).1 i
          ≡ makespan inst (slice (len - 1) 0 (remove perm len i).1))
        × ((remove_makespans inst perm len tables makespans).2 ≡ makespan inst (slice len 0 perm))
  unfolding remove_makespans
  remove_makespans-makespan tables makespans i pos hm hi =
      let head = compute_heads inst perm len tables.head in
      let tail = compute_tails inst perm len tables.tail in
      let front = slice i 0 perm in
      let rest = slice (len - 1 - i) (suc i) perm in
      let sums : ℕ → ℕ = λ j. heads inst (λ l. 0) front j + tails inst (λ l. 0) rest j in
      let no_heads : (j : ℕ) → i ≡ 0 → heads inst (λ l. 0) front j ≡ 0 =
        λ j e. ap (λ n. heads inst (λ l. 0) (slice n 0 perm) j) e ∙ (unfold heads slice in refl) in
      let no_rest : (j : ℕ) → suc i ≡ len → tails inst (λ l. 0) rest j ≡ 0 = λ j e.
        ap (λ n. tails inst (λ l. 0) (slice n (suc i) perm) j) {y = 0} (omega arith)
        ∙ (unfold tails slice in refl) in
      let front_cell : (j : ℕ)
          → 0 < i
          → j < inst.nb_machines
          → head j (i - 1) ≡ heads inst (λ l. 0) front j =
        λ j some hj.
          compute_heads-value inst perm len tables.head j (i - 1) hj (omega arith)
          ∙ (unfold head_value in
              ap (λ n. heads inst (λ l. 0) (slice n 0 perm) j) {x = suc (i - 1)} {y = i}
                (omega arith)) in
      let rest_cell : (j : ℕ)
          → suc i < len
          → j < inst.nb_machines
          → tail j (suc i) ≡ tails inst (λ l. 0) rest j =
        λ j inside hj.
          compute_tails-value inst perm len tables.tail j (suc i) hj inside
          ∙ (unfold tail_value in
              ap (λ n. tails inst (λ l. 0) (slice n (suc i) perm) j) {x = len - suc i}
                {y = len - 1 - i} (omega arith)) in
      let whole : makespan inst (slice (len - 1) 0 (remove perm len i).1)
          ≡ peak inst.nb_machines 0 (λ j. heads inst (λ l. 0) front j + tails inst (λ l. 0) rest j)
              0 =
        ap (makespan inst) (remove-slice perm len i hi) ∙ makespan-append-peak inst front rest hm in
      let first = write makespans 0 (peak inst.nb_machines 0 (λ j. tail j 1) 0) in
      let inner_val : ℕ → ℕ =
        λ l. peak inst.nb_machines 0 (λ j. head j (l - 1) + tail j (suc l)) 0 in
      let inner = fill (len - 2) 1 inner_val first in
      let filled = fill-cell (len - 2) 1 inner_val first i in
      let entry : write inner (len - 1) (peak inst.nb_machines 0 (λ j. head j (len - 1 - 1)) 0) i
          ≡ makespan inst (slice (len - 1) 0 (remove perm len i).1) =
        elim (ℕ_discrete i 0) [
          | yes e ↦
              let cells =
                peak_congr inst.nb_machines 0 (λ j. tail j 1) sums 0
                  (λ j lo hj. omega (
                    arith,
                    ap (tail j) {x = suc i} {y = 1} (omega arith),
                    rest_cell j (omega arith) (omega arith),
                    no_heads j e,
                  )) in
              ground (arith, filled, cells, whole)
          | no some ↦ elim (ℕ_discrete (suc i) len) [
            | yes e ↦
                let cells =
                  peak_congr inst.nb_machines 0 (λ j. head j (len - 1 - 1)) sums 0
                    (λ j lo hj. omega (
                      arith,
                      ap (head j) {x = len - 1 - 1} {y = i - 1} (omega arith),
                      front_cell j (omega arith) (omega arith),
                      no_rest j e,
                    )) in
                ground (arith, cells, whole)
            | no inside ↦
                let cells =
                  peak_congr inst.nb_machines 0 (λ j. head j (i - 1) + tail j (suc i)) sums 0
                    (λ j lo hj. omega (
                      arith,
                      front_cell j (omega arith) (omega arith),
                      rest_cell j (omega arith) (omega arith),
                    )) in
                ground (arith, filled, cells, whole)
          ]
        ] in
      (entry, compute_heads-makespan inst perm len tables.head (omega arith) hm)
