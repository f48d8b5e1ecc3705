-- ===== src/Explorer/Steps.antt =====
-- multicore/src/sequentialbb.cpp: the moves of an explorer, with boundMode 0.
use pbbperm.Base.{
  ℕ, zero, suc, ◌-◌, Bool, true, false, ◌&&◌, Option, none, some, ltb, leb, if◌then◌else◌, ℤ, pos,
  negsuc, is_negative,
}
use pbbperm.Ivm.{
  Ivm, before_end, line_end_state, pruning_cell_state, is_last_line, go_up, go_right, go_down,
  generate_line,
}
use pbbperm.Solution.{get_best}
use pbbperm.Explorer.{Settings, Explorer, prepare_schedule, bound_leaf, weak_bound_prune}

-- What a round of the loop of `next` ends with: the interval is done, a node was found, or another
-- round.
pub data Round : Type 0 where
  finished found again : Round

-- `goDown` and the rest of its branch.
unfoldable pub branch : Settings → Explorer → Explorer × Round
branch c s =
    let below =
      prepare_schedule (record s { ivm = go_down s.ivm; tot_decomposed = suc s.tot_decomposed }) in
    if is_last_line below.ivm then ((bound_leaf c below).0, again) else (below, found)

-- A round of the loop of `next`.
unfoldable pub round : Settings → Explorer → Explorer × Round
unfolding branch
round c s =
    if before_end s.ivm
    then (if line_end_state s.ivm
        then (record s { ivm = go_up s.ivm }, again)
        else (if pruning_cell_state s.ivm
            then (record s { ivm = go_right s.ivm }, again)
            else branch c s))
    else (s, finished)

-- Whether the loop goes on, from what a round ends with and what the other rounds would.
abbrev after : Explorer → Round → Option (Explorer × Bool) → Option (Explorer × Bool)
after s finished rest = some (s, false)
after s found rest = some (s, true)
after s again rest = rest

-- The loop of `next`, on fuel; `none` means that the fuel ran out.
unfoldable pub rounds : ℕ → Settings → Explorer → Option (Explorer × Bool)
unfolding round
rounds zero c s = none
rounds (suc fuel) c s = let (s', r) = round c s in let rest = rounds fuel c s' in after s' r rest

-- `switch (bdmode)` and the check behind it; `none` is its exit.
unfoldable pub conclude : Settings → Explorer × Bool → Option (Explorer × Bool)
conclude c (s, false) = some (s, false)
conclude c (s, true) =
    let t = weak_bound_prune c s in if leb (t.ivm.size - 1) t.ivm.line then none else some (t, true)

-- `next`; `none` is an exit of the program or the end of the fuel
unfoldable pub next : ℕ → Settings → Explorer → Option (Explorer × Bool)
unfolding rounds conclude
next fuel c s = elim (rounds fuel c (record s { local_best = get_best s.sltn 2147483647 })) [
  | none ↦ none
  | some r ↦ conclude c r
]

-- The driver `while (next());`, with fuel for the calls and for each of them.
unfoldable pub drive : ℕ → ℕ → Settings → Explorer → Option Explorer
unfolding next
drive zero fuel c s = none
drive (suc calls) fuel c s = elim (next fuel c s) [
  | none ↦ none
  | some (s', more) ↦ let rest = drive calls fuel c s' in if more then rest else some s'
]

-- `solvedAtRoot`: `n` cells of the first row from `i` on
unfoldable pub solved_from : ℕ → ℕ → (ℕ → ℤ) → Bool
solved_from zero i row = true
solved_from (suc n) i row = is_negative (row i) && solved_from n (suc i) row

unfoldable pub solved_at_root : Explorer → Bool
unfolding solved_from
solved_at_root s = solved_from s.ivm.size 0 (s.ivm.job_mat 0)

-- The first loop of `unfold`: both vectors are within their rows, `n` cells from `i` on.
unfoldable pub vectors_checked : ℕ → ℕ → Ivm → Bool
vectors_checked zero i v = true
vectors_checked (suc n) i v =
    ltb (v.pos_vect i) (v.size - i)
    && (ltb (v.end_vect i) (v.size - i) && vectors_checked n (suc i) v)

-- 0 <= job < size
abbrev is_job : ℕ → ℤ → Bool
is_job size (pos job) = ltb job size
is_job size (negsuc n) = false

-- The loop of `unfold` that looks for an invalid job: `n` cells from `i` on.
unfoldable pub row_checked : ℕ → ℕ → ℕ → (ℕ → ℤ) → Bool
row_checked size zero i row = true
row_checked size (suc n) i row = is_job size (row i) && row_checked size n (suc i) row

-- The positions below the line are reset, where the line's cell is pruned.
abbrev pub reset_below : Ivm → Ivm
reset_below v = record v {
  pos_vect = λ i. if ltb v.line i && ltb i v.size then 0 else v.pos_vect i;
}

-- The second loop of `unfold`, with its rounds; `none` is an exit.
unfoldable pub unfold_lines : ℕ → Settings → Explorer → Option Explorer
unfolding row_checked
unfold_lines zero c s = some s
unfold_lines (suc n) c s =
    let v = s.ivm in
    let l = suc v.line in
    let below =
      prepare_schedule (record s { ivm = generate_line l false (record v { line = l }) }) in
    let rest = unfold_lines n c (weak_bound_prune c below) in
    if pruning_cell_state v
    then some (record s { ivm = reset_below v })
    else if row_checked v.size (v.size - l) 0 (below.ivm.job_mat l)
    then rest
    else none

-- `unfold`
unfoldable pub unfold_interval : Settings → Explorer → Option Explorer
unfolding vectors_checked unfold_lines
unfold_interval c s =
    let v = s.ivm in
    if vectors_checked v.size 0 v then unfold_lines (v.size - 2 - v.line) c s else none

-- `initAtInterval`, with its result; `none` is an exit
unfoldable pub init_at_interval : Settings → (ℕ → ℕ) → (ℕ → ℕ) → Explorer → Option (Explorer × Bool)
unfolding unfold_interval
init_at_interval c begin end s =
    let v = s.ivm in
    let w = record v {
      line = 0;
      pos_vect = λ i. if ltb i v.size then begin i else v.pos_vect i;
      end_vect = λ i. if ltb i v.size then end i else v.end_vect i;
    } in
    let t = record s { ivm = w; simple_bounds = 0 } in
    if before_end w
    then elim (unfold_interval c t) [ none ↦ none | some u ↦ some (u, true) ]
    else some (t, false)

-- `initFullInterval`
unfoldable pub init_full_interval : Settings → Explorer → Option (Explorer × Bool)
unfolding init_at_interval
init_full_interval c s = init_at_interval c (λ i. 0) (λ i. s.ivm.size - i - 1) s
