-- ===== src/Work/Taken.antt =====
-- distributed/src/work.cpp: what `take` moves to another unit.
use mathlib.Core.List.{reverse, reverse-cons, reverse-reverse}
use pbbperm.Base.{
  ℕ, zero, suc, ◌+◌, ◌≤◌, ◌≡◌, refl, ap, subst, ◌⊎◌, ◌↔◌, inl, inr, List, [], ◌∷◌, ◌++◌, arith,
  length, ltb, length-append, ◌∙◌, if◌then◌else◌, Any, Bool-cases,
}
use pbbperm.Work.{Interval, take_last, take_work}
use pbbperm.Work.Cover.{Holds, Any-append_left, Any-append_right}

length-reverse : (is : List Interval) → length (reverse is) ≡ length is
length-reverse [] = refl
length-reverse (i ∷ is) =
    ap length (reverse-cons i is)
    ∙ length-append (reverse is) (i ∷ [])
    ∙ ap (λ n. n + 1) (length-reverse is)
    ∙ omega arith

take_last-length : (n i : ℕ) (is : List Interval) → n ≤ length is → length (take_last n i is).1 ≡ n
unfolding take_last
take_last-length zero i is h = refl
take_last-length (suc n) i [] h = absurd (omega (arith, h))
take_last-length (suc n) i (last ∷ is) h = ap suc (take_last-length n (suc i) is (omega (arith, h)))

take_work-length :
    (most : ℕ) (is : List Interval)
    → length (take_work most is).1 ≡ (if ltb (length is) most then 0 else most)
unfolding take_work
take_work-length most is = elim (Bool-cases (ltb (length is) most)) [
  | inl few ↦ rw few refl
  | inr enough ↦
      rw enough
        (take_last-length most 0 (reverse is) (let same = length-reverse is in ground arith))
]

module _ (x : ℕ) where
  Any-append_cases :
      (is js : List Interval) → Any (Holds x) (is ++ js) → Any (Holds x) is ⊎ Any (Holds x) js
  Any-append_cases [] js h = inr h
  Any-append_cases (i ∷ is) js h = elim h [
    | inl here ↦ inl (inl here)
    | inr there ↦ elim (Any-append_cases is js there) [
      | inl left ↦ inl (inr left)
      | inr right ↦ inr right
    ]
  ]

  Any-reverse : (is : List Interval) → Any (Holds x) is → Any (Holds x) (reverse is)
  Any-reverse [] h = absurd h
  Any-reverse (i ∷ is) h = rw (reverse-cons i is) (elim h [
    | inl here ↦ Any-append_right x (reverse is) (i ∷ []) (inl here)
    | inr there ↦ Any-append_left x (reverse is) (i ∷ []) (Any-reverse is there)
  ])

  reverse-Any : (is : List Interval) → Any (Holds x) (reverse is) → Any (Holds x) is
  reverse-Any is h = subst (Any (Holds x)) (reverse-reverse is) (Any-reverse (reverse is) h)

  take_last-kept :
      (n i : ℕ) (is : List Interval)
      → Any (Holds x) is
      → Any (Holds x) (take_last n i is).0 ⊎ Any (Holds x) (take_last n i is).1
  unfolding take_last
  take_last-kept zero i is h = inl h
  take_last-kept (suc n) i [] h = absurd h
  take_last-kept (suc n) i (last ∷ is) h = elim h [
    | inl here ↦ inr (inl here)
    | inr there ↦ elim (take_last-kept n (suc i) is there) [
      | inl stays ↦ inl stays
      | inr taken ↦ inr (inr taken)
    ]
  ]

  take_last-found :
      (n i : ℕ) (is : List Interval)
      → Any (Holds x) (take_last n i is).0 ⊎ Any (Holds x) (take_last n i is).1
      → Any (Holds x) is
  unfolding take_last
  take_last-found zero i is h = elim h [ inl stays ↦ stays | inr taken ↦ absurd taken ]
  take_last-found (suc n) i [] h = elim h [ inl stays ↦ stays | inr taken ↦ absurd taken ]
  take_last-found (suc n) i (last ∷ is) h = elim h [
    | inl stays ↦ inr (take_last-found n (suc i) is (inl stays))
    | inr taken ↦ elim taken [
      | inl here ↦ inl here
      | inr there ↦ inr (take_last-found n (suc i) is (inr there))
    ]
  ]

  take_work-kept :
      (most : ℕ) (is : List Interval)
      → Any (Holds x) is
        ↔ (Any (Holds x) (take_work most is).0 ⊎ Any (Holds x) (take_work most is).1)
  unfolding take_work
  take_work-kept most is = elim (Bool-cases (ltb (length is) most)) [
    | inl few ↦ rw few (λ h. inl h, λ h. elim h [ inl stays ↦ stays | inr taken ↦ absurd taken ])
    | inr enough ↦ rw enough (
      λ h. elim (take_last-kept most 0 (reverse is) (Any-reverse is h)) [
        | inl stays ↦ inl (Any-reverse (take_last most 0 (reverse is)).0 stays)
        | inr taken ↦ inr taken
      ],
      λ h. reverse-Any is (
          take_last-found most 0 (reverse is) (elim h [
            | inl stays ↦ inl (reverse-Any (take_last most 0 (reverse is)).0 stays)
            | inr taken ↦ inr taken
          ])),
    )
  ]

-- take takes as many intervals as are asked for, or none if the unit has fewer; and a position is in
-- the unit if and only if it is in what take leaves or in what it takes.
pub take_work-Holds :
    (most x : ℕ) (is : List Interval)
    → (length (take_work most is).1 ≡ (if ltb (length is) most then 0 else most))
      × (Any (Holds x) is
          ↔ (Any (Holds x) (take_work most is).0 ⊎ Any (Holds x) (take_work most is).1))
take_work-Holds most x is = (take_work-length most is, take_work-kept x most is)
