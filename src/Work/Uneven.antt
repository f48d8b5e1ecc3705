-- ===== src/Work/Uneven.antt =====
-- distributed/src/work.cpp: `split2`, which cuts a short part off the high end of an interval, again
-- and again.
use pbbperm.Base.{
  ℕ, zero, suc, ◌+◌, ◌-◌, ◌*◌, ◌/◌, List, [], ◌∷◌, ◌++◌, Option, none, some, length, ltb, leb, ◌==◌,
  if◌then◌else◌,
}
use pbbperm.Work.{Interval, renumber}

-- `5*begin/100+95*e/100`
unfoldable pub high_cut : ℕ → ℕ → ℕ
high_cut begin e = 5 * begin / 100 + 95 * e / 100

-- The inner loop of `work::split2`, with `n` rounds left: the intervals it makes, then `b` and the
-- next number when it ends.
unfoldable pub high_parts : ℕ → ℕ → ℕ → ℕ → List Interval × (ℕ × ℕ)
unfolding high_cut
high_parts zero begin b id = ([], (b, id))
high_parts (suc n) begin b id =
    let next = high_cut begin b in
    let rest = high_parts n begin next (suc id) in
    if ltb (b - next) 3628800
    then ([], (next, id))
    else (record { begin = next; end = b; id = id } ∷ rest.0, rest.1)

-- The parts of one interval, and the next number
unfoldable pub uneven_parts : ℕ → ℕ → Interval → List Interval × ℕ
unfolding high_parts high_cut
uneven_parts ratio id i =
    let b = high_cut i.begin i.end in
    let inner = high_parts (ratio - 2) i.begin b (suc id) in
    (
      record { begin = b; end = i.end; id = id } ∷ inner.0
          ++ record { begin = i.begin; end = inner.1.0; id = inner.1.1 } ∷ [],
      suc inner.1.1,
    )

unfoldable pub split2_from : ℕ → ℕ → List Interval → List Interval
unfolding uneven_parts
split2_from ratio id [] = []
split2_from ratio id (i ∷ is) =
    let made = uneven_parts ratio id i in made.0 ++ split2_from ratio made.1 is

-- `work::split2`; `none` is the division by zero of a unit without an interval
unfoldable pub split2 : ℕ → List Interval → Option (List Interval)
unfolding split2_from
split2 n is =
    let ratio = n / length is in
    if length is == 0
    then none
    else if leb ratio 1
    then some (renumber 0 is)
    else some (split2_from ratio 0 is)
