-- ===== src/Examples/Moves.antt =====
-- An explorer of three jobs on two machines that has the whole interval.
use native.Mathlib.Nat.{le_refl}
use pbbperm.Base.{
  ℕ, suc, ◌+◌, ◌-◌, ◌≡◌, refl, Perm, slice, arith, ltb, if◌then◌else◌, ◌≤◌, pos, some, true, false,
}
use pbbperm.Ivm.{before_end, before_from, go_down, line_end_state}
use pbbperm.Ivm.Jobs.{IsConsistent, go_down-IsConsistent, jobs}
use pbbperm.Explorer.Decode.{prepare_schedule-Perm}
use pbbperm.Explorer.{Settings, Explorer, prepare_schedule}
use pbbperm.Explorer.Steps.{drive, init_at_interval, unfold_interval, unfold_lines, vectors_checked}
use pbbperm.Explorer.Potential.{IsExploring, limit}
use pbbperm.Explorer.Start.{init_at_interval-drive}
use pbbperm.Explorer.Drive.{drive-finishes}

abbrev in_order : ℕ → ℕ
in_order i = i

abbrev settings : Settings
settings = record {
  inst = record { nb_job = 3; nb_machines = 2; temps_job = λ machine job. machine + job + 1 };
  branching_mode = pos 3;
  single_node = true;
  initial_ub = 100;
  find_all = false;
  outside = in_order;
}

abbrev explorer : Explorer
explorer = record {
  ivm = record {
    size = 3;
    line = 0;
    job_mat = λ k i. pos i;
    pos_vect = λ i. 0;
    end_vect = λ i. 2 - i;
    dir_vect = λ k. pos 0;
  };
  node = record {
    size = 3;
    schedule = in_order;
    front = 0;
    limit2 = 3;
    cost = 0;
    ub = 0;
    depth = 0;
  };
  costs_begin = in_order;
  costs_end = in_order;
  prio_begin = in_order;
  prio_end = in_order;
  local_best = 100;
  sltn = record { size = 3; cost = 100; perm = in_order };
  found_solution = false;
  leaves = 0;
  tot_decomposed = 0;
  simple_bounds = 0;
}

explorer-IsExploring : IsExploring explorer.ivm
explorer-IsExploring = record {
  in_matrix = omega arith;
  points = λ k hk. absurd (omega arith);
  current = omega arith;
  end_first = omega arith;
  visited = λ last. absurd (omega arith);
}

drive-finishes_example :
    (t : Explorer) × (drive (suc (limit 3)) (suc (limit 3)) settings explorer ≡ some t)
    × (before_end t.ivm ≡ false)
drive-finishes_example =
    drive-finishes (suc (limit 3)) settings explorer explorer-IsExploring (le_refl _)

-- Two jobs, for which `initAtInterval` has no line to unfold.
abbrev two_jobs : Explorer
two_jobs = record explorer {
  ivm = record {
    size = 2;
    line = 0;
    job_mat = λ k i. pos i;
    pos_vect = λ i. if ltb i 2 then 0 else in_order i;
    end_vect = λ i. if ltb i 2 then 1 - i else in_order i;
    dir_vect = λ k. pos 0;
  };
}

abbrev before_start : Explorer
before_start = record two_jobs {
  ivm = record two_jobs.ivm { pos_vect = in_order; end_vect = in_order };
}

accepted : init_at_interval settings (λ i. 0) (λ i. 1 - i) before_start ≡ some (two_jobs, true)
unfolding init_at_interval unfold_interval unfold_lines vectors_checked before_end before_from
accepted = refl

two : 2 ≤ before_start.ivm.size
two = le_refl 2

init_at_interval-drive_example :
    (u : Explorer) × (drive (suc (limit 2)) (suc (limit 2)) settings two_jobs ≡ some u)
    × (before_end u.ivm ≡ false)
init_at_interval-drive_example =
    init_at_interval-drive (suc (limit 2)) settings (λ i. 0) (λ i. 1 - i) before_start two_jobs two
      accepted (le_refl _)

explorer-IsConsistent : IsConsistent explorer.ivm
explorer-IsConsistent = record {
  in_matrix = omega arith;
  points = λ k hk. absurd (omega arith);
  rests = λ k hk. absurd (omega arith);
}

-- The explorer, one line further down.
abbrev below : Explorer
below = record explorer { ivm = go_down explorer.ivm }

below-IsConsistent : IsConsistent below.ivm
unfolding line_end_state
below-IsConsistent = go_down-IsConsistent explorer.ivm (omega arith) refl explorer-IsConsistent

prepare_schedule-Perm_example :
    Perm (slice below.ivm.size 0 (prepare_schedule below).node.schedule) (jobs below.ivm 0)
prepare_schedule-Perm_example = prepare_schedule-Perm below below-IsConsistent
