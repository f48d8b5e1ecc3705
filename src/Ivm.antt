-- ===== src/Ivm.antt =====
-- multicore/src/ivm.cpp and the work sharing of multicore/src/bbthread.cpp: the integer-vector-matrix
-- of an explorer. `jobMat[l * size + i]` is cell `i` of row `l`; every access of the code stays
-- within a row. The entries of `posVect` and `endVect` are never negative.
pub mod Order
pub mod Jobs
pub mod Reach
pub mod Share
pub mod Partition
use pbbperm.Base.{
  ℕ, zero, suc, ◌+◌, ◌-◌, ◌/◌, Bool, true, false, ◌&&◌, Option, none, some, ltb, leb, ◌==◌,
  if◌then◌else◌, write, write2, ℤ, pos, negsuc, is_negative, negative, remove_flag,
}

pub record Ivm : Type 0 where
  pub size : ℕ
  pub line : ℕ
  pub job_mat : ℕ → ℕ → ℤ
  pub pos_vect : ℕ → ℕ
  pub end_vect : ℕ → ℕ
  pub dir_vect : ℕ → ℤ

-- `clearInterval`
unfoldable pub clear_interval : Ivm → Ivm
clear_interval v = record v {
  job_mat = λ l i. pos 0;
  pos_vect = write (λ i. 0) 0 v.size;
  end_vect = λ i. 0;
}

-- The constructor; `dirs` is `dirVect` as allocated.
unfoldable pub new_ivm : ℕ → (ℕ → ℤ) → Ivm
unfolding clear_interval
new_ivm size dirs =
    record (clear_interval (record {
      size = size;
      line = 0;
      job_mat = λ l i. pos 0;
      pos_vect = λ i. 0;
      end_vect = λ i. 0;
      dir_vect = dirs;
    })) { line = 0; pos_vect = write (write (λ i. 0) 0 size) 0 size }

-- `initEmpty`
unfoldable pub init_empty : Ivm → Ivm
init_empty v = record v {
  line = 0;
  job_mat = λ l i. if l == 0 then (if ltb i v.size then pos i else pos 0) else pos 0;
  pos_vect = λ i. 0;
  end_vect = λ i. 0;
  dir_vect = λ i. negsuc 0;
}

-- `goRight`
unfoldable pub go_right : Ivm → Ivm
go_right v = record v { pos_vect = write v.pos_vect v.line (suc (v.pos_vect v.line)) }

-- Flags the cell that a line points at, `jobMat[l * size + pos] = negative(...)`.
abbrev pub flag_cell : (ℕ → ℕ → ℤ) → ℕ → ℕ → ℕ → ℕ → ℤ
flag_cell m l i = write2 m l i (negative (m l i))

-- `goUp`
unfoldable pub go_up : Ivm → Ivm
unfolding go_right
go_up v = if ltb 0 v.line then above else go_right v
  where
    above : Ivm
    above = record v {
      line = v.line - 1;
      pos_vect = write v.pos_vect v.line 0;
      job_mat = flag_cell v.job_mat (v.line - 1) (write v.pos_vect v.line 0 (v.line - 1));
    }

-- What `generateLine` writes into a row: the row above without the entry at `column`, unflagged.
abbrev pub next_row : ℕ → ℕ → (ℕ → ℤ) → (ℕ → ℤ) → ℕ → ℤ
next_row width column row old i =
    if ltb i column
    then remove_flag (row i)
    else if ltb i width
    then remove_flag (row (suc i))
    else old i

-- `generateLine`
unfoldable pub generate_line : ℕ → Bool → Ivm → Ivm
generate_line l explore v =
    if explore
    then record filled { pos_vect = write v.pos_vect l 0; dir_vect = write v.dir_vect l (pos 0) }
    else filled
  where
    filled : Ivm
    filled = record v {
      job_mat = λ k.
          if l == k
          then next_row (v.size - l) (v.pos_vect (l - 1)) (v.job_mat (l - 1)) (v.job_mat k)
          else v.job_mat k;
    }

-- `goDown`
unfoldable pub go_down : Ivm → Ivm
unfolding generate_line
go_down v = generate_line (suc v.line) true (record v { line = suc v.line })

-- `lineEndState`
unfoldable pub line_end_state : Ivm → Bool
line_end_state v = leb (v.size - v.line) (v.pos_vect v.line)

-- `isLastLine`
unfoldable pub is_last_line : Ivm → Bool
is_last_line v = suc v.line == v.size

-- `pruningCellState`
unfoldable pub pruning_cell_state : Ivm → Bool
pruning_cell_state v = is_negative (v.job_mat v.line (v.pos_vect v.line))

-- The loop of `beforeEnd`: `n` cells from `i` on.
unfoldable pub before_from : ℕ → ℕ → (ℕ → ℕ) → (ℕ → ℕ) → Bool
before_from zero i p e = true
before_from (suc n) i p e =
    let rest = before_from n (suc i) p e in
    if ltb (p i) (e i) then true else if ltb (e i) (p i) then false else rest

-- `beforeEnd`
unfoldable pub before_end : Ivm → Bool
unfolding before_from
before_end v = before_from v.size 0 v.pos_vect v.end_vect

-- The loop of `countExplorableSubtrees`: `n` cells from `i` on.
count_from : ℕ → ℕ → (ℕ → ℤ) → ℕ → ℕ
count_from zero i row count = count
count_from (suc n) i row count =
    count_from n (suc i) row (if is_negative (row i) then count else suc count)

-- `countExplorableSubtrees`
unfoldable pub count_explorable_subtrees : Ivm → ℕ → ℕ
unfolding count_from
count_explorable_subtrees v l =
    count_from (v.end_vect l - v.pos_vect l) (suc (v.pos_vect l)) (v.job_mat l) 0

-- The `while` of `cuttingPosition`, on fuel; `none` means that the fuel ran out.
skip_kept : ℕ → (ℕ → ℤ) → ℕ → ℕ → ℕ → Option ℕ
skip_kept zero row keep kept i = none
skip_kept (suc fuel) row keep kept i =
    let rest = skip_kept fuel row keep (if is_negative (row i) then kept else suc kept) (suc i) in
    if ltb kept keep then rest else some i

-- The two range checks at the end of `cuttingPosition`; a failed check ends the program.
checked_cut : ℕ → ℕ → Option ℕ → Option ℕ
checked_cut low high none = none
checked_cut low high (some i) = if leb i low then none else if ltb high i then none else some i

-- `cuttingPosition`; `none` where the program exits. No cell at or beyond `size` is looked at
-- before the loop ends, so `size + 1` rounds are enough.
unfoldable pub cutting_position : Ivm → ℕ → ℕ → Option ℕ
unfolding count_explorable_subtrees skip_kept checked_cut
cutting_position v l division =
    let explorable = count_explorable_subtrees v l in
    if ltb (v.end_vect l) (v.pos_vect l + explorable)
    then none
    else checked_cut (v.pos_vect l) (v.end_vect l)
        (skip_kept (suc v.size) (v.job_mat l) (explorable / division) 0 (suc (v.pos_vect l)))

-- The `while` of `shareWork`: the first level that is open, at most `line` and `size - 10`. Its
-- test fails at `line`, so `line` rounds are enough.
pub open_level : ℕ → ℕ → Ivm → ℕ
open_level zero l v = l
open_level (suc n) l v =
    let rest = open_level n (suc l) v in
    if (v.pos_vect l == v.end_vect l) && (ltb l v.line && ltb (l + 10) v.size) then rest else l

-- The two explorers after the victim is cut at level `l` and position `cut`.
unfoldable pub cut_at : ℕ → ℕ → Ivm → Ivm → Ivm × Ivm
cut_at l cut victim thief = (
  record victim {
    end_vect = λ i.
        if ltb l i
        then (if ltb i victim.size then victim.size - i - 1 else victim.end_vect i)
        else write victim.end_vect l (cut - 1) i;
  },
  record thief {
    line = l;
    job_mat = λ k i. if leb k l && ltb i victim.size then victim.job_mat k i else thief.job_mat k i;
    dir_vect = λ i. if leb i l then victim.dir_vect i else thief.dir_vect i;
    pos_vect = λ i.
        if ltb i l
        then victim.pos_vect i
        else if i == l
        then cut
        else if ltb i victim.size
        then 0
        else thief.pos_vect i;
    end_vect = λ i. if ltb i victim.size then victim.end_vect i else thief.end_vect i;
  },
)

share_at : ℕ → Ivm → Ivm → Option ℕ → Option (ℕ × Ivm × Ivm)
share_at l victim thief none = none
share_at l victim thief (some cut) =
    let (victim', thief') = cut_at l cut victim thief in some (1, victim', thief')

-- `shareWork`: the number of intervals given away, the victim and the thief. The two numbers that
-- the code takes are not used by it.
unfoldable pub share_work : Ivm → Ivm → Option (ℕ × Ivm × Ivm)
unfolding open_level cut_at share_at
share_work victim thief =
    let l = open_level victim.line 0 victim in
    if ltb (victim.pos_vect l) (victim.end_vect l)
    then share_at l victim thief (cutting_position victim l 2)
    else some (0, victim, thief)
