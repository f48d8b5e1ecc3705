-- ===== src/Work/Initial.antt =====
-- distributed/src/works.cpp: the work units that the master starts with. The deque of the unassigned
-- units is a list with its front first; the units that it held before are an argument.
use mathlib.Core.List.{reverse}
use mathlib.Core.Option
use pbbperm.Base.{
  ℕ, zero, suc, ◌-◌, ◌*◌, ◌<◌, ◌≡◌, ap, inl, inr, List, [], ◌∷◌, ◌++◌, Option, some, arith, Any,
}
use pbbperm.Work.{Interval, split}
use pbbperm.Work.Cover.{Holds, split-Holds}
use pbbperm.Work.Uneven.{split2}

-- The loop over `b *= i`: n factorial
unfoldable pub product : ℕ → ℕ
product zero = 1
product (suc n) = product n * suc n

-- The interval of all positions, which is in the first unit
unfoldable pub all_positions : ℕ → Interval
unfolding product
all_positions size = record { begin = 0; end = product size - 1; id = 0 }

-- `works::init_complete`
unfoldable pub init_complete : ℕ → List (List Interval) → List (List Interval)
unfolding all_positions
init_complete size unassigned = unassigned ++ (all_positions size ∷ []) ∷ []

-- The loop that puts each interval in a unit of its own
abbrev pub singly : List Interval → List (List Interval)
singly [] = []
singly (i ∷ is) = (i ∷ []) ∷ singly is

-- `works::init_complete_split`; `none` is a division by zero
unfoldable pub init_complete_split : ℕ → ℕ → List (List Interval) → Option (List (List Interval))
unfolding all_positions split
init_complete_split size parts unassigned =
    Option.map (λ is. unassigned ++ singly is) (split parts (all_positions size ∷ []))

-- `works::init_complete_split_lop`
unfoldable pub init_complete_split_lop :
    ℕ → ℕ → List (List Interval) → Option (List (List Interval))
unfolding all_positions split2
init_complete_split_lop size parts unassigned =
    Option.map (λ is. reverse (unassigned ++ singly is)) (split2 parts (all_positions size ∷ []))

singly-Holds : (x : ℕ) (is : List Interval) → Any (Holds x) is → Any (Any (Holds x)) (singly is)
singly-Holds x [] h = absurd h
singly-Holds x (i ∷ is) h = elim h [
  | inl here ↦ inl (inl here)
  | inr there ↦ inr (singly-Holds x is there)
]

Any-append_back :
    (x : ℕ) (us vs : List (List Interval)) → Any (Any (Holds x)) vs → Any (Any (Holds x)) (us ++ vs)
Any-append_back x [] vs h = h
Any-append_back x (u ∷ us) vs h = inr (Any-append_back x us vs h)

-- init_complete_split returns for any number of parts, and each position below size! is in one of the
-- unassigned units that it leaves.
pub init_complete_split-Holds :
    (size parts x : ℕ) (unassigned : List (List Interval))
    → x < product size
    → (units : List (List Interval)) × (init_complete_split size parts unassigned ≡ some units)
      × Any (Any (Holds x)) units
unfolding init_complete_split all_positions
init_complete_split-Holds size parts x unassigned below =
    let all =
      split-Holds parts x (all_positions size ∷ []) (inl (omega arith, omega (arith, below))) in
    (
      unassigned ++ singly all.0,
      ap (Option.map (λ is. unassigned ++ singly is)) all.1,
      Any-append_back x unassigned (singly all.0) (singly-Holds x all.0 all.2),
    )
