-- ===== src/Sorting.antt =====
-- common/include/misc.h: the gnome sorts of an array of jobs by keys that are `int`. The loop of the
-- code has a fuel, and `none` is a run that needs more rounds.
pub mod Ints
pub mod Rounds
pub mod Sorted
use pbbperm.Base.{
  ℕ, zero, suc, ◌+◌, ◌-◌, ◌*◌, Bool, Option, none, some, ltb, leb, ◌&&◌, ◌||◌, ◌==◌, if◌then◌else◌,
  write, ℤ, pos, negsuc, true, false,
}

-- `a > b` on `int`
unfoldable pub gtb_ℤ : ℤ → ℤ → Bool
gtb_ℤ (pos a) (pos b) = ltb b a
gtb_ℤ (pos a) (negsuc b) = true
gtb_ℤ (negsuc a) (pos b) = false
gtb_ℤ (negsuc a) (negsuc b) = ltb a b

-- `a == b` on `int`
unfoldable pub eqb_ℤ : ℤ → ℤ → Bool
eqb_ℤ (pos a) (pos b) = a == b
eqb_ℤ (pos a) (negsuc b) = false
eqb_ℤ (negsuc a) (pos b) = false
eqb_ℤ (negsuc a) (negsuc b) = a == b

-- `swap(&arr[i - 1], &arr[i])`
abbrev pub swap_before : ℕ → (ℕ → ℕ) → ℕ → ℕ
swap_before i arr = write (write arr (i - 1) (arr i)) i (arr (i - 1))

-- What a round changes: `i`, `j` and the array.
pub record Gnome : Type 0 where
  pub i : ℕ
  pub j : ℕ
  pub arr : ℕ → ℕ

module _ (above : ℕ → ℕ → Bool) where
  -- The body of the loop; `above` is the test of the keys of two jobs. `--i` is tested against 0, so
  -- that a job moves down to cell 0, whatever `from` is.
  unfoldable pub gnome_round : Gnome → Gnome
  gnome_round s =
      let swapped = swap_before s.i s.arr in
      if above (s.arr (s.i - 1)) (s.arr s.i)
      then (if s.i - 1 == 0
          then record { i = s.j; j = suc s.j; arr = swapped }
          else record { i = s.i - 1; j = s.j; arr = swapped })
      else record { i = s.j; j = suc s.j; arr = s.arr }

  -- `while (i <= to)`
  unfoldable pub gnome_loop : ℕ → ℕ → Gnome → Option (ℕ → ℕ)
  unfolding gnome_round
  gnome_loop zero to s = none
  gnome_loop (suc fuel) to s =
      let rest = gnome_loop fuel to (gnome_round s) in if leb s.i to then rest else some s.arr

  -- A sort of the cells `from` to `to`
  unfoldable pub gnome_sort : ℕ → ℕ → ℕ → (ℕ → ℕ) → Option (ℕ → ℕ)
  unfolding gnome_loop
  gnome_sort fuel from to arr =
      gnome_loop fuel to (record { i = from + 1; j = from + 2; arr = arr })

-- `gnomeSortByKeyInc`
unfoldable pub gnome_sort_by_key_inc : (ℕ → ℤ) → ℕ → ℕ → ℕ → (ℕ → ℕ) → Option (ℕ → ℕ)
unfolding gnome_sort gtb_ℤ
gnome_sort_by_key_inc key fuel from to arr =
    gnome_sort (λ a b. gtb_ℤ (key a) (key b)) fuel from to arr

-- `gnomeSortByKeysInc`
unfoldable pub gnome_sort_by_keys_inc : (ℕ → ℤ) → (ℕ → ℤ) → ℕ → ℕ → ℕ → (ℕ → ℕ) → Option (ℕ → ℕ)
unfolding gnome_sort gtb_ℤ eqb_ℤ
gnome_sort_by_keys_inc key1 key2 fuel from to arr =
    gnome_sort
      (λ a b. gtb_ℤ (key1 a) (key1 b) || (eqb_ℤ (key1 a) (key1 b) && gtb_ℤ (key2 a) (key2 b))) fuel
      from to arr
