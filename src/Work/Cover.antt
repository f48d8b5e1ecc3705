-- ===== src/Work/Cover.antt =====
-- Giving work away loses no position.
use pbbperm.Base.{
  ℕ, zero, suc, ◌+◌, ◌-◌, ◌*◌, ◌/◌, ◌≤◌, ◌<◌, ◌≡◌, refl, ◌⊎◌, inl, inr, false, List, [], ◌∷◌, ◌++◌,
  some, arith, length, ltb, leb, ◌==◌, Any, Bool-cases, dec_le,
}
use pbbperm.Work.{Interval, divide_from, divide, renumber, middle_parts, parts, split_from, split}

-- The position `x` is in the interval.
abbrev pub Holds : ℕ → Interval → Type 0
Holds x i = (i.begin ≤ x) × (x ≤ i.end)

divide_from-Holds :
    (most stolen x : ℕ) (is : List Interval)
    → Any (Holds x) is
    → Any (Holds x) (divide_from most stolen is).0 ⊎ Any (Holds x) (divide_from most stolen is).1
unfolding divide_from
divide_from-Holds most stolen x [] h = absurd h
divide_from-Holds most stolen x (i ∷ is) h = elim (Bool-cases (leb most stolen)) [
  | inl enough ↦ rw enough (inl h)
  | inr more ↦ elim (Bool-cases (ltb (i.end - i.begin) 362880)) [
    | inl small ↦ rw more (
        rw small (elim h [
          | inl here ↦ inl (inl here)
          | inr there ↦ elim (divide_from-Holds most stolen x is there) [
            | inl kept ↦ inl (inr kept)
            | inr taken ↦ inr taken
          ]
        ]))
    | inr large ↦ rw more (
        rw large (elim h [
          | inl here ↦ elim (dec_le x (i.begin + (i.end - i.begin) / 2)) [
            | yes low ↦ inl (inl (here.0, low))
            | no high ↦ inr (inl (omega arith, here.1))
          ]
          | inr there ↦ elim (divide_from-Holds most (suc stolen) x is there) [
            | inl kept ↦ inl (inr kept)
            | inr taken ↦ inr (inr taken)
          ]
        ]))
  ]
]

pub Any-append_left : (x : ℕ) (is js : List Interval) → Any (Holds x) is → Any (Holds x) (is ++ js)
Any-append_left x [] js h = absurd h
Any-append_left x (i ∷ is) js h = elim h [
  | inl here ↦ inl here
  | inr there ↦ inr (Any-append_left x is js there)
]

pub Any-append_right : (x : ℕ) (is js : List Interval) → Any (Holds x) js → Any (Holds x) (is ++ js)
Any-append_right x [] js h = h
Any-append_right x (i ∷ is) js h = inr (Any-append_right x is js h)

middle_parts-Holds :
    (n i begin part id x : ℕ)
    → begin + i * part < x
    → x ≤ begin + (i + n) * part
    → Any (Holds x) (middle_parts n i begin part id)
unfolding middle_parts
middle_parts-Holds zero i begin part id x lo hi = absurd (grind arith)
middle_parts-Holds (suc n) i begin part id x lo hi = elim (dec_le x (begin + suc i * part)) [
  | yes here ↦ inl (omega arith, here)
  | no later ↦ inr (middle_parts-Holds n (suc i) begin part (suc id) x (omega arith) (grind arith))
]

parts-Holds :
    (ratio id x : ℕ) (i : Interval) → 2 ≤ ratio → Holds x i → Any (Holds x) (parts ratio id i)
unfolding parts
parts-Holds ratio id x i two h =
    let part = (i.end - i.begin) / ratio in
    let inner_parts = middle_parts (ratio - 2) 1 i.begin part (suc id) in
    let last_part : List Interval =
      record { begin = i.begin + (ratio - 1) * part + 1; end = i.end; id = id + (ratio - 1) }
      ∷ [] in
    elim (dec_le x (i.begin + part)) [
      | yes first ↦ inl (h.0, first)
      | no later ↦ elim (dec_le x (i.begin + (ratio - 1) * part)) [
        | yes inner ↦
            let e : 1 + (ratio - 2) ≡ ratio - 1 = omega arith in
            inr (
              Any-append_left x inner_parts last_part (
                middle_parts-Holds (ratio - 2) 1 i.begin part (suc id) x (omega arith)
                  (rw e inner)))
        | no last ↦ inr (Any-append_right x inner_parts last_part (inl (omega arith, h.1)))
      ]
    ]

split_from-Holds :
    (ratio id x : ℕ) (is : List Interval)
    → 2 ≤ ratio
    → Any (Holds x) is
    → Any (Holds x) (split_from ratio id is)
unfolding split_from
split_from-Holds ratio id x [] two h = absurd h
split_from-Holds ratio id x (i ∷ is) two h = elim h [
  | inl here ↦
      Any-append_left x (parts ratio id i) (split_from ratio (id + ratio) is)
        (parts-Holds ratio id x i two here)
  | inr there ↦
      Any-append_right x (parts ratio id i) (split_from ratio (id + ratio) is)
        (split_from-Holds ratio (id + ratio) x is two there)
]

renumber-Holds : (id x : ℕ) (is : List Interval) → Any (Holds x) is → Any (Holds x) (renumber id is)
unfolding renumber
renumber-Holds id x [] h = absurd h
renumber-Holds id x (i ∷ is) h = elim h [
  | inl here ↦ inl here
  | inr there ↦ inr (renumber-Holds (suc id) x is there)
]

-- `split` of a unit with a position returns, and the position is in one of the new intervals.
pub split-Holds :
    (n x : ℕ) (is : List Interval)
    → Any (Holds x) is
    → (js : List Interval) × (split n is ≡ some js) × Any (Holds x) js
unfolding split
split-Holds n x [] h = absurd h
split-Holds n x (i ∷ is) h =
    let some_there : (length (i ∷ is) == 0) ≡ false = ground arith in
    elim (Bool-cases (leb (n / length (i ∷ is)) 1)) [
      | inl few ↦ (renumber 0 (i ∷ is), rw some_there (rw few refl), renumber-Holds 0 x (i ∷ is) h)
      | inr many ↦ (
        split_from (n / length (i ∷ is)) 0 (i ∷ is),
        rw some_there (rw many refl),
        split_from-Holds (n / length (i ∷ is)) 0 x (i ∷ is) (ground arith) h,
      )
    ]

-- What is taken from an interval list never exceeds the given number.
divide_from-le :
    (most stolen : ℕ) (is : List Interval)
    → stolen ≤ most
    → length (divide_from most stolen is).1 + stolen ≤ most
unfolding divide_from
divide_from-le most stolen [] h = omega arith
divide_from-le most stolen (i ∷ is) h = elim (Bool-cases (leb most stolen)) [
  | inl enough ↦ rw enough (omega arith)
  | inr more ↦ elim (Bool-cases (ltb (i.end - i.begin) 362880)) [
    | inl small ↦ rw more (rw small (divide_from-le most stolen is h))
    | inr large ↦
        let rest = divide_from-le most (suc stolen) is (ground arith) in
        rw more (rw large (omega arith))
  ]
]

-- The part of a unit that `divide` takes has at most `most` intervals, and each position of the unit is
-- afterwards in an interval that stays or in one that is taken.
pub divide-cover :
    (most x : ℕ) (is : List Interval)
    → Any (Holds x) is
    → (length (divide most is).1 ≤ most)
      × (Any (Holds x) (divide most is).0 ⊎ Any (Holds x) (divide most is).1)
unfolding divide
divide-cover most x is h =
    (omega (arith, divide_from-le most 0 is (omega arith)), divide_from-Holds most 0 x is h)
