-- ===== src/Work.antt =====
-- distributed/src/interval.cpp and distributed/src/work.cpp: the intervals of a work unit, and how a
-- unit gives work away. Both ends of an interval belong to it. A GMP integer is a natural number, and
-- a list has the vector's first interval first.
pub mod Cover
pub mod Taken
pub mod Uneven
pub mod Initial
pub mod Common
use mathlib.Core.List.{reverse}
use pbbperm.Base.{
  ℕ, zero, suc, ◌+◌, ◌-◌, ◌*◌, ◌/◌, Bool, ◌||◌, List, [], ◌∷◌, ◌++◌, Option, none, some, length,
  ltb, leb, ◌==◌, if◌then◌else◌, max, min, true, false, ◌&&◌,
}

pub record Interval : Type 0 where
  pub begin : ℕ
  pub end : ℕ
  pub id : ℕ

-- `interval::disjoint`
unfoldable pub disjoint : Interval → Interval → Bool
disjoint i self = leb i.end self.begin || leb self.end i.begin

-- `interval::length`; where the end lies before the begin the code has a negative number
unfoldable pub interval_length : Interval → ℕ
interval_length i = i.end - i.begin

-- `work::set_size`
unfoldable pub set_size : List Interval → ℕ
set_size [] = 0
set_size (i ∷ is) =
    let rest = set_size is in if ltb i.begin i.end then (i.end - i.begin) + rest else rest

-- The loop of `work::divide`: what stays with the victim, and what is taken. `stolen` intervals have
-- been taken before.
unfoldable pub divide_from : ℕ → ℕ → List Interval → List Interval × List Interval
divide_from most stolen [] = ([], [])
divide_from most stolen (i ∷ is) =
    let small = ltb (i.end - i.begin) 362880 in
    let cut = i.begin + (i.end - i.begin) / 2 in
    let rest = divide_from most (if small then stolen else suc stolen) is in
    if leb most stolen then (i ∷ is, []) else if small then (i ∷ rest.0, rest.1) else (
      record i { end = cut } ∷ rest.0,
      record { begin = cut + 1; end = i.end; id = stolen } ∷ rest.1,
    )

-- `work::divide`
unfoldable pub divide : ℕ → List Interval → List Interval × List Interval
unfolding divide_from
divide most is = divide_from most 0 is

-- `ratio <= 1` in `work::split`: the intervals get new numbers.
unfoldable pub renumber : ℕ → List Interval → List Interval
renumber id [] = []
renumber id (i ∷ is) = record i { id = id } ∷ renumber (suc id) is

-- The inner loop of `work::split`: `n` parts, the first with the number `i`.
unfoldable pub middle_parts : ℕ → ℕ → ℕ → ℕ → ℕ → List Interval
middle_parts zero i begin part id = []
middle_parts (suc n) i begin part id =
    record { begin = begin + i * part + 1; end = begin + suc i * part; id = id }
    ∷ middle_parts n (suc i) begin part (suc id)

-- The parts of one interval, for a ratio of at least 2. Where the end lies before the begin the length
-- is 0 here, and negative in the code.
unfoldable pub parts : ℕ → ℕ → Interval → List Interval
unfolding middle_parts
parts ratio id i =
    let part = (i.end - i.begin) / ratio in
    record { begin = i.begin; end = i.begin + part; id = id }
      ∷ middle_parts (ratio - 2) 1 i.begin part (suc id)
    ++ record { begin = i.begin + (ratio - 1) * part + 1; end = i.end; id = id + (ratio - 1) } ∷ []

unfoldable pub split_from : ℕ → ℕ → List Interval → List Interval
unfolding parts
split_from ratio id [] = []
split_from ratio id (i ∷ is) = parts ratio id i ++ split_from ratio (id + ratio) is

-- `work::split`; `none` is the division by zero of a unit without an interval
unfoldable pub split : ℕ → List Interval → Option (List Interval)
unfolding split_from renumber
split n is =
    let ratio = n / length is in
    if length is == 0
    then none
    else if leb ratio 1
    then some (renumber 0 is)
    else some (split_from ratio 0 is)

-- `it2++`
abbrev pub tail : List Interval → List Interval
tail [] = []
tail (i ∷ is) = is

-- `work::clear`, which leaves no interval
unfoldable pub clear_work : List Interval → List Interval
clear_work is = []

-- The loop of `work::take`: the last interval moves `n` times at most, the first time as number `i`.
-- The list has the last interval first.
unfoldable pub take_last : ℕ → ℕ → List Interval → List Interval × List Interval
take_last zero i is = (is, [])
take_last (suc n) i [] = ([], [])
take_last (suc n) i (last ∷ is) =
    let rest = take_last n (suc i) is in (rest.0, record last { id = i } ∷ rest.1)

-- `work::take`: what stays, and what is taken
unfoldable pub take_work : ℕ → List Interval → List Interval × List Interval
unfolding take_last
take_work most is =
    let taken = take_last most 0 (reverse is) in
    if ltb (length is) most then (is, []) else (reverse taken.0, taken.1)

-- The test that two intervals are one object.
module _ (same : Interval → Interval → Bool) where
  -- The scan of `work::intersection` for the interval `jt`: from `it` on, with the place `it2` from
  -- which the next scan starts. The interval it finds, whether that is a new one, and `it2`.
  unfoldable pub scan :
      Interval → List Interval → List Interval → (Option Interval × Bool) × List Interval
  scan jt [] it2 = ((none, false), it2)
  scan jt (i ∷ it) it2 =
      let before = scan jt it (tail it2) in
      let later = scan jt it it2 in
      let common : Interval = record {
        begin = max i.begin jt.begin;
        end = min i.end jt.end;
        id = jt.id;
      } in
      if ltb i.end jt.begin
      then before
      else (if ltb jt.end i.begin
          then ((none, false), it2)
          else (if same i jt
              then ((some i, false), it2)
              else (if ltb jt.begin i.end && ltb i.begin jt.end
                  then ((some common, true), it2)
                  else later)))

  abbrev pub add_found : Option Interval → List Interval → List Interval
  add_found none is = is
  add_found (some i) is = i ∷ is

  -- The loop of `work::intersection` over the other unit: the result, and whether an interval of it
  -- is new.
  unfoldable pub intersect_from : List Interval → List Interval → List Interval × Bool
  unfolding scan
  intersect_from [] it2 = ([], false)
  intersect_from (jt ∷ js) it2 =
      let found = scan jt it2 it2 in
      let rest = intersect_from js found.1 in (add_found found.0.0 rest.0, found.0.1 || rest.1)

  -- `work::intersection` of a unit with the unit `w`
  unfoldable pub intersection : List Interval → List Interval → List Interval × Bool
  unfolding intersect_from
  intersection w unit = intersect_from w unit
