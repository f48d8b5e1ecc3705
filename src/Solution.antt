-- ===== src/Solution.antt =====
-- common/src/solution.cpp: the incumbent. Each call takes its lock for the whole of its work, so a
-- call is one step.
pub mod Best
use pbbperm.Base.{ℕ, Option, none, some, Bool, true, false, ltb, if◌then◌else◌}

pub record Solution : Type 0 where
  pub size : ℕ
  pub cost : ℕ
  pub perm : ℕ → ℕ

-- `solution(int)`; INT_MAX is the cost
unfoldable pub new_solution : ℕ → (ℕ → ℕ) → Solution
new_solution size memory = record {
  size = size;
  cost = 2147483647;
  perm = λ i. if ltb i size then i else memory i;
}

-- The loop of `update`; a candidate may be missing, which is the null pointer.
unfoldable pub copied : Option (ℕ → ℕ) → Solution → ℕ → ℕ
copied none s i = s.perm i
copied (some candidate) s i = if ltb i s.size then candidate i else s.perm i

-- `update`, with its result 1 or 0 as a truth value
unfoldable pub update : Option (ℕ → ℕ) → ℕ → Solution → Solution × Bool
unfolding copied
update candidate cost s =
    if ltb cost s.cost
    then (record s { cost = cost; perm = copied candidate s }, true)
    else (s, false)

-- `updateCost`
unfoldable pub update_cost : ℕ → Solution → Solution × Bool
update_cost cost s = if ltb cost s.cost then (record s { cost = cost }, true) else (s, false)

-- `getBest(int&)`: the new value of the argument
unfoldable pub get_best : Solution → ℕ → ℕ
get_best s cost = if ltb s.cost cost then s.cost else cost
