-- ===== src/Heuristic/Makespans/Blocks.antt =====
-- heuristic/src/fastinsertremove.cpp: the entries of `insertBlockMakespans` are the makespans of the
-- schedules that `blockInsert` produces.
use mathlib.Core.List.{append_assoc}
use pbbperm.Base.{
  ℕ, ◌+◌, ◌-◌, ◌≤◌, ◌<◌, ◌≡◌, sym, ap, ap₂, ◌∙◌, ◌++◌, arith, slice, dec_lt, if◌then◌else◌, ◌==◌,
}
use pbbperm.Flowshop.Vectors.{Instance, heads, tails, makespan}
use pbbperm.Flowshop.Lists.{heads-append}
use pbbperm.Heuristic.Tables.{Tables, compute_heads, compute_tails, compute_inser_block}
use pbbperm.Heuristic.Inser.{before, block_loop-heads, compute_inser_block-value}
use pbbperm.Heuristic.Edits.{block_insert, block_insert-slice}
use pbbperm.Heuristic.Peak.{peak, peak_congr, peak-max, makespan-append-peak}
use pbbperm.Heuristic.Makespans.{fill, insert_block_makespans}
use pbbperm.Heuristic.Makespans.Entries.{
  fill-cell, heads_congr, before-heads, compute_heads-makespan, tails-cell, no_tails,
}

module _ (inst : Instance) (perm : ℕ → ℕ) (len : ℕ) where
  -- Each entry of `insertBlockMakespans` but the last is the makespan of the schedule after that
  -- insertion of the block; the last is so when its cell of the array held at most that. The
  -- result is the makespan before. Conditions: the permutation is not empty, and there is a
  -- machine.
  pub insert_block_makespans-makespan :
      (block : ℕ → ℕ) (bl : ℕ) (tables : Tables) (makespans : ℕ → ℕ) (i : ℕ)
      → 0 < len
      → 0 < inst.nb_machines
      → i ≤ len
      → (i ≡ len
          → makespans len
            ≤ makespan inst (slice (len + bl) 0 (block_insert bl 0 perm len i block).0))
      → ((insert_block_makespans inst perm len block bl tables makespans).1 i
          ≡ makespan inst (slice (len + bl) 0 (block_insert bl 0 perm len i block).0))
        × ((insert_block_makespans inst perm len block bl tables makespans).2
            ≡ makespan inst (slice len 0 perm))
  unfolding insert_block_makespans
  insert_block_makespans-makespan block bl tables makespans i pos hm hi fresh =
      let head = compute_heads inst perm len tables.head in
      let tail = compute_tails inst perm len tables.tail in
      let inser = compute_inser_block inst len block bl head tables.inser in
      let front = slice i 0 perm ++ slice bl 0 block in
      let rest = slice (len - i) i perm in
      let filled =
        fill len 0 (λ l. peak inst.nb_machines 0 (λ j. inser j l + tail j l) 0) makespans in
      let sums : ℕ → ℕ = λ j. heads inst (λ l. 0) front j + tails inst (λ l. 0) rest j in
      let filled_cell =
        fill-cell len 0 (λ l. peak inst.nb_machines 0 (λ j. inser j l + tail j l) 0) makespans in
      let after = makespan inst (slice (len + bl) 0 (block_insert bl 0 perm len i block).0) in
      let heads_cell : (j : ℕ) → j < inst.nb_machines → inser j i ≡ heads inst (λ l. 0) front j =
        λ j hj.
          compute_inser_block-value inst head bl block len tables.inser j i hj hi
          ∙ ap (λ f. f j) (block_loop-heads inst head bl 0 block (before inst head i))
          ∙ heads_congr inst (slice bl 0 block) _ (heads inst (λ l. 0) (slice i 0 perm)) j
              (λ k hk. before-heads inst perm len tables.head i k hi (omega arith))
          ∙ sym (ap (λ f. f j) (heads-append inst (slice i 0 perm) (slice bl 0 block) (λ l. 0))) in
      let whole : after
          ≡ peak inst.nb_machines 0 (λ j. heads inst (λ l. 0) front j + tails inst (λ l. 0) rest j)
              0 =
        ap (makespan inst) (
          block_insert-slice bl perm len i block hi
          ∙ sym (append_assoc (slice i 0 perm) (slice bl 0 block) rest))
        ∙ makespan-append-peak inst front rest hm in
      let entry : (if len == i
            then peak inst.nb_machines 0 (λ j. inser j len) (filled len)
            else filled i)
          ≡ after =
        elim (dec_lt i len) [
          | yes inside ↦
              let cells =
                peak_congr inst.nb_machines 0 (λ j. inser j i + tail j i) sums 0
                  (λ j lo hj. ap₂ ◌+◌ (heads_cell j (omega arith)) (
                    tails-cell inst perm len tables.tail i j pos hi (omega arith)
                      (λ e. absurd (omega arith)))) in
              ground (arith, filled_cell i, cells, whole)
          | no last ↦
              let e : i ≡ len = omega arith in
              let cells =
                peak_congr inst.nb_machines 0 (λ j. inser j i) sums 0
                  (λ j lo hj.
                    omega (arith, heads_cell j (omega arith), no_tails inst perm len i j e)) in
              ground (
                arith,
                peak-max inst.nb_machines 0 (λ j. inser j len) (filled len),
                filled_cell len,
                ap (λ l. peak inst.nb_machines 0 (λ j. inser j l) 0) e,
                cells,
                whole,
                fresh e,
              )
        ] in
      (entry, compute_heads-makespan inst perm len tables.head pos hm)
