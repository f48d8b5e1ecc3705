-- ===== src/Examples/Units.antt =====
-- A work unit of two intervals.
use pbbperm.Base.{
  ◌≤◌, ◌≡◌, ◌⊎◌, ◌↔◌, inl, Bool, true, false, List, [], ◌∷◌, some, arith, length, Any,
}
use pbbperm.Work.{Interval, divide, split, take_work, scan, intersect_from, intersection}
use pbbperm.Work.Initial.{init_complete_split, product, init_complete_split-Holds}
use pbbperm.Work.Taken.{take_work-Holds}
use pbbperm.Work.Uneven.{split2, split2_from, uneven_parts, high_parts, high_cut}
use pbbperm.Work.Common.{intersection-Holds}
use pbbperm.Work.Cover.{Holds, divide-cover, split-Holds}

abbrev unit : List Interval
unit =
    record { begin = 0; end = 1000000; id = 0 }
    ∷ record { begin = 2000000; end = 2000100; id = 1 }
    ∷ []

unit-Holds : Any (Holds 7) unit
unit-Holds = inl (omega arith, omega arith)

divide-cover_example :
    (length (divide 1 unit).1 ≤ 1)
    × (Any (Holds 7) (divide 1 unit).0 ⊎ Any (Holds 7) (divide 1 unit).1)
divide-cover_example = divide-cover 1 7 unit unit-Holds

split-Holds_example : (js : List Interval) × (split 6 unit ≡ some js) × Any (Holds 7) js
split-Holds_example = split-Holds 6 7 unit unit-Holds

abbrev distinct : Interval → Interval → Bool
distinct i j = false

distinct-eq : (i j : Interval) → distinct i j ≡ true → i ≡ j
distinct-eq i j e = ground arith

abbrev other : List Interval
other =
    record { begin = 5; end = 9; id = 2 } ∷ record { begin = 2000050; end = 3000000; id = 3 } ∷ []

common-Holds : Any (Holds 7) (intersection distinct other unit).0
unfolding intersection intersect_from scan
common-Holds = inl (omega arith, omega arith)

intersection-Holds_example : Any (Holds 7) unit × Any (Holds 7) other
intersection-Holds_example = intersection-Holds distinct distinct-eq 7 other unit common-Holds

take_work-Holds_example :
    (length (take_work 1 unit).1 ≡ 1)
    × (Any (Holds 7) unit
        ↔ (Any (Holds 7) (take_work 1 unit).0 ⊎ Any (Holds 7) (take_work 1 unit).1))
take_work-Holds_example = take_work-Holds 1 7 unit

-- All positions of ten jobs in three parts: those from 3274992 to 3447358 are in none.
split2-lost :
    split2 3 (record { begin = 0; end = 3628799; id = 0 } ∷ [])
    ≡ some (
        record { begin = 3447359; end = 3628799; id = 0 }
        ∷ record { begin = 0; end = 3274991; id = 1 }
        ∷ [])
unfolding split2 split2_from uneven_parts high_parts high_cut
split2-lost = λ i. some (
    record { begin = 3447359; end = 3628799; id = 0 }
    ∷ record { begin = 0; end = 3274991; id = 1 }
    ∷ [])

init_complete_split-Holds_example :
    (units : List (List Interval)) × (init_complete_split 4 3 [] ≡ some units)
    × Any (Any (Holds 7)) units
unfolding product
init_complete_split-Holds_example = init_complete_split-Holds 4 3 7 [] (omega arith)
