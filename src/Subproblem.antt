-- ===== src/Subproblem.antt =====
-- common/src/subproblem.cpp: a node of the search tree. `limit1` starts at -1, and the field `front`
-- is `limit1 + 1`, the number of jobs at the front.
pub mod Child
use pbbperm.Base.{
  ℕ, zero, suc, ◌+◌, ◌-◌, Bool, true, false, Option, none, some, ltb, ◌==◌, if◌then◌else◌, write,
}

pub record Subproblem : Type 0 where
  pub size : ℕ
  pub schedule : ℕ → ℕ
  pub front : ℕ
  pub limit2 : ℕ
  pub cost : ℕ
  pub ub : ℕ
  pub depth : ℕ

-- FWDBR and BWDBR, which are also BEGIN_ORDER and END_ORDER.
pub data Side : Type 0 where
  begin_order end_order : Side

-- `subproblem(int)`; the array is written below `size` only, so the rest is as allocated.
unfoldable pub new_subproblem : ℕ → (ℕ → ℕ) → Subproblem
new_subproblem size memory = record {
  size = size;
  schedule = λ j. if ltb j size then j else memory j;
  front = 0;
  limit2 = size;
  cost = 0;
  ub = 0;
  depth = 0;
}

-- The loop of `locate`: `n` cells from `i` on; `none` is the -1 of the code.
locate_from : ℕ → ℕ → (ℕ → ℕ) → ℕ → Option ℕ
locate_from zero i schedule job = none
locate_from (suc n) i schedule job =
    let rest = locate_from n (suc i) schedule job in if schedule i == job then some i else rest

-- `locate`
unfoldable pub locate : Subproblem → ℕ → Option ℕ
unfolding locate_from
locate s job = locate_from s.size 0 s.schedule job

-- `limites_set`
unfoldable pub limites_set : Subproblem → Side → Subproblem → Subproblem
limites_set father begin_order s = record s {
  front = suc father.front;
  limit2 = father.limit2;
  depth = suc father.depth;
}
limites_set father end_order s = record s {
  front = father.front;
  limit2 = father.limit2 - 1;
  depth = suc father.depth;
}

-- The loop `for (j = indice; j > limit1 + 1; j--)` of `permutation_set`, with its rounds.
shift_right : ℕ → ℕ → (ℕ → ℕ) → ℕ → ℕ
shift_right zero j s = s
shift_right (suc n) j s = shift_right n (j - 1) (write s j (s (j - 1)))

-- The loop `for (j = indice; j < limit2 - 1; j++)` of `permutation_set`, with its rounds.
shift_left : ℕ → ℕ → (ℕ → ℕ) → ℕ → ℕ
shift_left zero j s = s
shift_left (suc n) j s = shift_left n (suc j) (write s j (s (suc j)))

-- `permutation_set`: the job at `indice` moves behind the front or before the back.
unfoldable pub permutation_set : Subproblem → ℕ → Side → Subproblem → Subproblem
unfolding shift_right shift_left
permutation_set father indice begin_order s = record s {
  schedule =
      write (shift_right (indice - father.front) indice father.schedule) father.front
        (father.schedule indice);
}
permutation_set father indice end_order s = record s {
  schedule =
      write (shift_left (father.limit2 - 1 - indice) indice father.schedule) (father.limit2 - 1)
        (father.schedule indice);
}

-- `subproblem(father, indice, begin_end)`. All its fields are written.
unfoldable pub child : Subproblem → ℕ → Side → Subproblem
unfolding limites_set permutation_set
child father indice side =
    let fresh : Subproblem = record father { cost = 0; ub = 0 } in
    record (permutation_set father indice side (limites_set father side fresh)) { cost = 0; ub = 0 }

-- `simple`, `limit2 - limit1 == 3`
unfoldable pub simple : Subproblem → Bool
simple s = s.limit2 == s.front + 2

-- `leaf`, `limit2 - limit1 == 2`
unfoldable pub leaf : Subproblem → Bool
leaf s = s.limit2 == s.front + 1
