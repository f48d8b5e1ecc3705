-- ===== src/Heuristic/Best.antt =====
-- heuristic/src/fastinsertremove.cpp: `bestInsert`, `bestBlockInsert` and `bestRemove`. A position
-- -1 is `none`. The vector `makespans` starts with zeros; the array of `bestBlockInsert` and of
-- `bestRemove` is fresh memory, a parameter here.
pub mod Choice
pub mod Removal
pub mod Gains
pub mod Inserts
use pbbperm.Base.{ℕ, zero, suc, ◌+◌, ◌-◌, Bool, true, false, Option, none, some, ltb, if◌then◌else◌}
use pbbperm.Flowshop.Vectors.{Instance, int_max}
use pbbperm.Heuristic.Tables.{Tables}
use pbbperm.Heuristic.Tabu.{Tabu, is_tabu}
use pbbperm.Heuristic.Edits.{insert, block_insert, remove}
use pbbperm.Heuristic.Makespans.{insert_makespans, insert_block_makespans, remove_makespans}

-- `mini` and `minpos`, over the `n` positions from `i` on
unfoldable pub least_position : ℕ → ℕ → (ℕ → ℕ) → Tabu → ℕ × Option ℕ → ℕ × Option ℕ
unfolding is_tabu
least_position zero i makespans tabupos best = best
least_position (suc n) i makespans tabupos best = least_position n (suc i) makespans tabupos (
    if is_tabu tabupos i
    then best
    else (if ltb (makespans i) best.0 then (makespans i, some i) else best))

-- What `bestInsert` leaves: the permutation, its length, `cmax`, the result and the tables.
pub record Inserted : Type 0 where
  pub perm : ℕ → ℕ
  pub len : ℕ
  pub cmax : ℕ
  pub pos : Option ℕ
  pub tables : Tables

-- `bestInsert`, from the choice on
unfoldable pub insert_at : (ℕ → ℕ) → ℕ → ℕ → ℕ × Option ℕ → Tables → Inserted
unfolding insert
insert_at perm len job (mini, none) tables = record {
  perm = perm;
  len = len;
  cmax = mini;
  pos = none;
  tables = tables;
}
insert_at perm len job (mini, some pos) tables = record {
  perm = (insert perm len pos job).0;
  len = (insert perm len pos job).1;
  cmax = mini;
  pos = some pos;
  tables = tables;
}

-- `bestBlockInsert`, from the choice on: the permutation and `mini`. The length is passed by value.
unfoldable pub insert_block_at : (ℕ → ℕ) → ℕ → (ℕ → ℕ) → ℕ → ℕ × Option ℕ → (ℕ → ℕ) × ℕ
unfolding block_insert
insert_block_at perm len block bl (mini, none) = (perm, mini)
insert_block_at perm len block bl (mini, some pos) =
    ((block_insert bl 0 perm len pos block).0, mini)

-- What `bestRemove` leaves: the permutation, its length, `remjob`, `cmax`, the result and the tables.
pub record Removed : Type 0 where
  pub perm : ℕ → ℕ
  pub len : ℕ
  pub remjob : ℕ
  pub cmax : ℕ
  pub pos : ℕ
  pub tables : Tables

module _ (inst : Instance) where
  -- `bestInsert`
  unfoldable pub best_insert : (ℕ → ℕ) → ℕ → ℕ → Tabu → Tables → Inserted
  unfolding insert_makespans least_position insert_at
  best_insert perm len job tabupos tables =
      let (after, makespans, _) = insert_makespans inst perm len job tables (λ i. 0) in
      insert_at perm len job (least_position (suc len) 0 makespans tabupos (int_max, none)) after

  -- `bestBlockInsert`
  unfoldable pub best_block_insert :
      (ℕ → ℕ) → ℕ → (ℕ → ℕ) → ℕ → Tabu → Tables → (ℕ → ℕ) → (ℕ → ℕ) × ℕ
  unfolding insert_block_makespans least_position insert_block_at
  best_block_insert perm len block bl tabupos tables memory =
      let (after, makespans, _) = insert_block_makespans inst perm len block bl tables memory in
      insert_block_at perm len block bl
        (least_position (suc len) 0 makespans tabupos (int_max, none))

  -- `sumPT`
  unfoldable pub sum_pt : ℕ → ℕ → ℕ
  sum_pt zero job = 0
  sum_pt (suc n) job = sum_pt n job + inst.temps_job n job

  -- The floating point numbers: (a - b) / c of three integers, the test `>`, and FLT_MIN.
  module _ (F : Type 0) (quotient : ℕ → ℕ → ℕ → F) (greater : F → F → Bool) (flt_min : F) where
    -- `maxi` and `bestpos`, over the `n` positions from `i` on
    unfoldable pub best_removal : ℕ → ℕ → (ℕ → ℕ) → ℕ → (ℕ → ℕ) → Tabu → F × Option ℕ → F × Option ℕ
    unfolding is_tabu sum_pt
    best_removal zero i perm oldcmax makespans tabujobs best = best
    best_removal (suc n) i perm oldcmax makespans tabujobs best =
        let val = quotient oldcmax (makespans i) (sum_pt inst.nb_machines (perm i)) in
        best_removal n (suc i) perm oldcmax makespans tabujobs (
          if is_tabu tabujobs (perm i)
          then best
          else (if greater val best.0 then (val, some i) else best))

    -- `bestRemove`, from the choice on. Without a position the code reads `makespans[-1]`: `none`.
    unfoldable pub remove_at : (ℕ → ℕ) → ℕ → (ℕ → ℕ) → Option ℕ → Tables → Option Removed
    unfolding remove
    remove_at perm len makespans none tables = none
    remove_at perm len makespans (some pos) tables = some (record {
      perm = (remove perm len pos).1;
      len = (remove perm len pos).2;
      remjob = (remove perm len pos).0;
      cmax = makespans pos;
      pos = pos;
      tables = tables;
    })

    -- `bestRemove`
    unfoldable pub best_remove : (ℕ → ℕ) → ℕ → Tabu → Tables → (ℕ → ℕ) → Option Removed
    unfolding remove_makespans best_removal remove_at
    best_remove perm len tabujobs tables memory =
        let (after, makespans, oldcmax) = remove_makespans inst perm len tables memory in
        remove_at perm len makespans
          (best_removal len 0 perm oldcmax makespans tabujobs (flt_min, none)).1 after
