-- ===== src/Work/Common.antt =====
-- distributed/src/work.cpp: the intersection of two work units invents no position.
use pbbperm.Base.{
  ℕ, ◌≡◌, refl, subst, inl, inr, true, false, Bool, List, [], ◌∷◌, Option, none, some, arith, ltb,
  Any, ◌&&◌, if◌then◌else◌,
}
use pbbperm.Work.{Interval, tail, scan, add_found, intersect_from, intersection}
use pbbperm.Work.Cover.{Holds}

module _ (same : Interval → Interval → Bool) (same-eq : (i j : Interval) → same i j ≡ true → i ≡ j)
    (x : ℕ) where
  -- A position of the interval that is found is in the unit and in the interval `jt`.
  abbrev IsCommon : Interval → List Interval → Option Interval → Type 0
  IsCommon jt is none = Unit
  IsCommon jt is (some k) = Holds x k → Any (Holds x) is × Holds x jt

  pick-IsCommon :
      (b : Bool) (jt : Interval) (is : List Interval)
      (p q : (Option Interval × Bool) × List Interval)
      → (b ≡ true → IsCommon jt is p.0.0)
      → (b ≡ false → IsCommon jt is q.0.0)
      → IsCommon jt is (if b then p else q).0.0
  pick-IsCommon true jt is p q hp hq = hp refl
  pick-IsCommon false jt is p q hp hq = hq refl

  weaken-IsCommon :
      (jt i : Interval) (is : List Interval) (o : Option Interval)
      → IsCommon jt is o
      → IsCommon jt (i ∷ is) o
  weaken-IsCommon jt i is none h = tt
  weaken-IsCommon jt i is (some k) h = λ held. let both = h held in (inr both.0, both.1)

  scan-IsCommon :
      (jt : Interval) (it it2 : List Interval) → IsCommon jt it (scan same jt it it2).0.0
  unfolding scan
  scan-IsCommon jt [] it2 = tt
  scan-IsCommon jt (i ∷ it) it2 =
      pick-IsCommon (ltb i.end jt.begin) jt (i ∷ it) _ _
        (λ e. weaken-IsCommon jt i it _ (scan-IsCommon jt it (tail it2)))
        (λ e.
          pick-IsCommon (ltb jt.end i.begin) jt (i ∷ it) _ _ (λ e'. tt)
            (λ e'.
              pick-IsCommon (same i jt) jt (i ∷ it) _ _
                (λ one held. (inl held, subst (Holds x) (same-eq i jt one) held))
                (λ two.
                  pick-IsCommon (ltb jt.begin i.end && ltb i.begin jt.end) jt (i ∷ it) _ _
                    (λ overlap held. (
                      inl (omega (arith, held), omega (arith, held)),
                      (omega (arith, held), omega (arith, held)),
                    ))
                    (λ apart. weaken-IsCommon jt i it _ (scan-IsCommon jt it it2)))))

  Any-tail : (is : List Interval) → Any (Holds x) (tail is) → Any (Holds x) is
  Any-tail [] h = h
  Any-tail (i ∷ is) h = inr h

  module _ (mine : List Interval) where
    -- The intervals from a place on are intervals of the unit.
    abbrev IsPart : List Interval → Type 0
    IsPart is = Any (Holds x) is → Any (Holds x) mine

    pick-IsPart :
        (b : Bool) (p q : (Option Interval × Bool) × List Interval)
        → IsPart p.1
        → IsPart q.1
        → IsPart (if b then p else q).1
    pick-IsPart true p q hp hq = hp
    pick-IsPart false p q hp hq = hq

    scan-IsPart :
        (jt : Interval) (it it2 : List Interval) → IsPart it2 → IsPart (scan same jt it it2).1
    unfolding scan
    scan-IsPart jt [] it2 sub = sub
    scan-IsPart jt (i ∷ it) it2 sub =
        pick-IsPart (ltb i.end jt.begin) _ _
          (scan-IsPart jt it (tail it2) (λ h. sub (Any-tail it2 h)))
          (pick-IsPart (ltb jt.end i.begin) _ _ sub (
            pick-IsPart (same i jt) _ _ sub (
              pick-IsPart (ltb jt.begin i.end && ltb i.begin jt.end) _ _ sub
                (scan-IsPart jt it it2 sub))))

    add_found-Holds :
        (jt : Interval) (is js rest : List Interval) (o : Option Interval)
        → IsPart is
        → IsCommon jt is o
        → (Any (Holds x) rest → Any (Holds x) mine × Any (Holds x) js)
        → Any (Holds x) (add_found same o rest)
        → Any (Holds x) mine × Any (Holds x) (jt ∷ js)
    add_found-Holds jt is js rest none sub common others h =
        let both = others h in (both.0, inr both.1)
    add_found-Holds jt is js rest (some k) sub common others h = elim h [
      | inl held ↦ let both = common held in (sub both.0, inl both.1)
      | inr later ↦ let both = others later in (both.0, inr both.1)
    ]

    intersect_from-Holds :
        (js it2 : List Interval)
        → IsPart it2
        → Any (Holds x) (intersect_from same js it2).0
        → Any (Holds x) mine × Any (Holds x) js
    unfolding intersect_from
    intersect_from-Holds [] it2 sub h = absurd h
    intersect_from-Holds (jt ∷ js) it2 sub h =
        let found = scan same jt it2 it2 in
        add_found-Holds jt it2 js (intersect_from same js found.1).0 found.0.0 sub
          (scan-IsCommon jt it2 it2)
          (λ later. intersect_from-Holds js found.1 (scan-IsPart jt it2 it2 sub) later) h

  -- A position of the intersection is a position of both units, sorted or not. Condition: one object
  -- has one value.
  pub intersection-Holds :
      (w unit : List Interval)
      → Any (Holds x) (intersection same w unit).0
      → Any (Holds x) unit × Any (Holds x) w
  unfolding intersection
  intersection-Holds w unit h = intersect_from-Holds unit w unit (λ held. held) h
