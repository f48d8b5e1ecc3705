-- ===== src/Heuristic/Makespans.antt =====
-- heuristic/src/fastinsertremove.cpp: `insertMakespans`, `insertBlockMakespans` and
-- `removeMakespans`, with the tables that they leave, the array `makespans` and the result. The
-- arrays `head`, `tail` and `inser` have `nbJob` columns.
pub mod Entries
pub mod Blocks
pub mod Removals
use pbbperm.Base.{ℕ, zero, suc, ◌+◌, ◌-◌, write}
use pbbperm.Flowshop.Vectors.{Instance}
use pbbperm.Heuristic.Tables.{
  Tables, compute_heads, compute_tails, compute_inser, compute_inser_block,
}
use pbbperm.Heuristic.Peak.{peak}

-- `makespans[i] = val i` for the `n` positions from `i` on
unfoldable pub fill : ℕ → ℕ → (ℕ → ℕ) → (ℕ → ℕ) → ℕ → ℕ
fill zero i val makespans = makespans
fill (suc n) i val makespans = fill n (suc i) val (write makespans i (val i))

module _ (inst : Instance) where
  -- `insertMakespans`
  unfoldable pub insert_makespans : (ℕ → ℕ) → ℕ → ℕ → Tables → (ℕ → ℕ) → Tables × (ℕ → ℕ) × ℕ
  unfolding compute_heads compute_tails compute_inser fill peak
  insert_makespans perm len job tables makespans =
      let head = compute_heads inst perm len tables.head in
      let tail = compute_tails inst perm len tables.tail in
      let inser = compute_inser inst len job head tables.inser in
      (
        record { head = head; tail = tail; inser = inser },
        fill (suc len) 0 (λ i. peak inst.nb_machines 0 (λ j. inser j i + tail j i) 0) makespans,
        head (inst.nb_machines - 1) (len - 1),
      )

  -- `insertBlockMakespans`. The last entry is not reset before its loop.
  unfoldable pub insert_block_makespans :
      (ℕ → ℕ) → ℕ → (ℕ → ℕ) → ℕ → Tables → (ℕ → ℕ) → Tables × (ℕ → ℕ) × ℕ
  unfolding compute_heads compute_tails compute_inser_block fill peak
  insert_block_makespans perm len block bl tables makespans =
      let head = compute_heads inst perm len tables.head in
      let tail = compute_tails inst perm len tables.tail in
      let inser = compute_inser_block inst len block bl head tables.inser in
      let filled =
        fill len 0 (λ i. peak inst.nb_machines 0 (λ j. inser j i + tail j i) 0) makespans in
      (
        record { head = head; tail = tail; inser = inser },
        write filled len (peak inst.nb_machines 0 (λ j. inser j len) (filled len)),
        head (inst.nb_machines - 1) (len - 1),
      )

  -- `removeMakespans`
  unfoldable pub remove_makespans : (ℕ → ℕ) → ℕ → Tables → (ℕ → ℕ) → Tables × (ℕ → ℕ) × ℕ
  unfolding compute_heads compute_tails fill peak
  remove_makespans perm len tables makespans =
      let head = compute_heads inst perm len tables.head in
      let tail = compute_tails inst perm len tables.tail in
      let first = write makespans 0 (peak inst.nb_machines 0 (λ j. tail j 1) 0) in
      let inner =
        fill (len - 2) 1 (λ i. peak inst.nb_machines 0 (λ j. head j (i - 1) + tail j (suc i)) 0)
          first in
      (
        record tables { head = head; tail = tail },
        write inner (len - 1) (peak inst.nb_machines 0 (λ j. head j (len - 1 - 1)) 0),
        head (inst.nb_machines - 1) (len - 1),
      )
