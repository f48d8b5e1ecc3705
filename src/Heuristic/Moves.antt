-- ===== src/Heuristic/Moves.antt =====
-- heuristic/src/fspnhoods.cpp: the moves of a job, on the state of a `fastInsertRemove`. A move has
-- no result, `none`, when `bestRemove` finds no job, so that the code reads outside its arrays, when
-- `bestRemove2` has no weight above 0 to draw from, which std::discrete_distribution asks for, or
-- when `tabujobs` is full. Both lists have a cell for each job, so that the first entry fits.
pub mod Orders
pub mod Rounds
use pbbperm.Base.{
  ℕ, zero, suc, ◌+◌, ◌-◌, ◌≤◌, Bool, true, false, Option, none, some, ltb, leb, ◌==◌, if◌then◌else◌,
  ◌||◌,
}
use pbbperm.Flowshop.Vectors.{Instance}
use pbbperm.Heuristic.Tables.{Tables, compute_heads}
use pbbperm.Heuristic.Tabu.{Tabu, add, clear, is_tabu}
use pbbperm.Heuristic.Edits.{remove}
use pbbperm.Heuristic.Makespans.{remove_makespans}
use pbbperm.Heuristic.Best.{Inserted, best_insert, sum_pt, Removed, remove_at, best_remove}

-- A `fastInsertRemove` with the lists of tabu jobs and positions.
pub record Fast : Type 0 where
  pub tables : Tables
  pub tabujobs : Tabu
  pub tabupos : Tabu

-- What a move leaves: the permutation, its length, the makespan it returns, and the state.
pub record Moved : Type 0 where
  pub perm : ℕ → ℕ
  pub len : ℕ
  pub cmax : ℕ
  pub fast : Fast

-- Floating point numbers, and std::discrete_distribution with a new std::default_random_engine:
-- `draw` picks one of `n` weights; `positive` is the test that a weight is above 0.
pub record Floats : Type 1 where
  pub F : Type 0
  pub quotient : ℕ → ℕ → ℕ → F
  pub greater : F → F → Bool
  pub flt_min : F
  pub nothing : F
  pub square : F → F
  pub positive : F → Bool
  pub draw : ℕ → (ℕ → F) → ℕ

module _ (inst : Instance) (floats : Floats) (memory : ℕ → ℕ) where
  -- `bestRemove` with the members of the object
  abbrev pub remove_best : (ℕ → ℕ) → ℕ → Fast → Option Removed
  remove_best perm len fast =
      best_remove inst floats.F floats.quotient floats.greater floats.flt_min perm len fast.tabujobs
        fast.tables memory

  -- `bestRemove2`: the weight of a position
  unfoldable pub weight : (ℕ → ℕ) → ℕ → Fast → ℕ → floats.F
  unfolding remove_makespans is_tabu sum_pt
  weight perm len fast i =
      let (_, makespans, oldcmax) = remove_makespans inst perm len fast.tables memory in
      floats.square (
        if is_tabu fast.tabujobs (perm i)
        then floats.nothing
        else floats.quotient oldcmax (makespans i) (sum_pt inst inst.nb_machines (perm i)))

  -- One of `n` weights from `i` on is above 0.
  unfoldable pub some_positive : ℕ → ℕ → (ℕ → floats.F) → Bool
  some_positive zero i w = false
  some_positive (suc n) i w = floats.positive (w i) || some_positive n (suc i) w

  -- `bestRemove2`
  unfoldable pub best_remove2 : (ℕ → ℕ) → ℕ → Fast → Option Removed
  unfolding remove_makespans weight some_positive remove
  best_remove2 perm len fast =
      let (after, makespans, _) = remove_makespans inst perm len fast.tables memory in
      let number = floats.draw len (weight perm len fast) in
      let done : Removed = record {
        perm = (remove perm len number).1;
        len = (remove perm len number).2;
        remjob = (remove perm len number).0;
        cmax = makespans number;
        pos = number;
        tables = after;
      } in
      if some_positive len 0 (weight perm len fast) then some done else none

  -- `computeHeads(perm, len)`: the makespan, and the state
  abbrev pub heads_of : (ℕ → ℕ) → ℕ → Fast → ℕ × Fast
  heads_of perm len fast =
      let head = compute_heads inst perm len fast.tables.head in
      (
        head (inst.nb_machines - 1) (len - 1),
        record fast { tables = record fast.tables { head = head } },
      )

  -- `tabupos->add(pos); bestInsert(perm, len, job, cmax); tabupos->clear();`
  unfoldable pub insert_elsewhere : (ℕ → ℕ) → ℕ → ℕ → ℕ → Fast → Moved
  unfolding best_insert add clear
  insert_elsewhere perm len job pos fast =
      let barred = add pos fast.tabupos in
      let done = best_insert inst perm len job barred fast.tables in
      record {
        perm = done.perm;
        len = done.len;
        cmax = done.cmax;
        fast = record fast { tables = done.tables; tabupos = clear barred };
      }

  -- `fastBREmove`: the second removal and insertion
  unfoldable pub move_second : Option Removed → Fast → Option Moved
  unfolding insert_elsewhere
  move_second none fast = none
  move_second (some out) fast =
      some
        (insert_elsewhere out.perm out.len out.remjob out.pos (record fast { tables = out.tables }))

  -- `fastBREmove`: the first removal and insertion
  unfoldable pub move_first : (ℕ → ℕ) → ℕ → Fast → Moved
  unfolding remove insert_elsewhere
  move_first perm pos fast =
      let (rjob, shorter, len) = remove perm inst.nb_job pos in
      insert_elsewhere shorter len rjob pos fast

  -- `fastBREmove`
  unfoldable pub fast_bre_move : (ℕ → ℕ) → ℕ → Fast → Option Moved
  unfolding compute_heads move_first add clear best_remove move_second
  fast_bre_move perm pos fast =
      let (cmax0, headed) = heads_of perm inst.nb_job fast in
      let first = move_first perm pos headed in
      let barred = record first.fast { tabujobs = add (perm pos) first.fast.tabujobs } in
      let second =
        move_second (remove_best first.perm first.len barred)
          (record barred { tabujobs = clear barred.tabujobs }) in
      if ltb cmax0 first.cmax then second else some first

  -- `kImove`: what follows `bestRemove2`
  unfoldable pub k_round : Option Removed → (Removed → Option Moved) → Option Moved
  k_round none rest = none
  k_round (some out) rest = rest out

  -- `kImove`: the loop, with `n` the rest of `kmax`. Without a round the code returns an unset value.
  unfoldable pub k_loop : ℕ → (ℕ → ℕ) → ℕ → ℕ → ℕ → Fast → Option Moved
  unfolding best_insert best_remove2 k_round add clear
  k_loop zero perm len rjob cmax0 fast =
      some (record { perm = perm; len = len; cmax = cmax0; fast = fast })
  k_loop (suc n) perm len rjob cmax0 fast =
      let done = best_insert inst perm len rjob fast.tabupos fast.tables in
      let again : Fast = record fast { tables = done.tables; tabupos = clear fast.tabupos } in
      let rest = k_round (best_remove2 done.perm done.len again) (λ out.
        if ltb fast.tabujobs.num fast.tabujobs.nmax
        then k_loop n out.perm out.len out.remjob cmax0 (record fast {
          tables = out.tables;
          tabujobs = add out.remjob fast.tabujobs;
          tabupos = add out.pos (clear fast.tabupos);
        })
        else none) in
      let stop : Moved = record {
        perm = done.perm;
        len = done.len;
        cmax = done.cmax;
        fast = record fast { tables = done.tables };
      } in
      if leb done.cmax cmax0 then some stop else (if n == 0 then some stop else rest)

  -- `kImove`
  unfoldable pub k_imove : (ℕ → ℕ) → ℕ → ℕ → Fast → Option Moved
  unfolding compute_heads remove add clear k_loop
  k_imove perm pos kmax fast =
      let (cmax0, headed) = heads_of perm inst.nb_job fast in
      let (rjob, shorter, len) = remove perm inst.nb_job pos in
      k_loop kmax shorter len rjob cmax0 (record headed {
        tabujobs = add rjob (clear headed.tabujobs);
        tabupos = add pos (clear headed.tabupos);
      })
