-- ===== src/Base/Tests.antt =====
-- Boolean tests on numbers, the conditional, and the cases of a test.
use Prim.Native.Nat.{ℕ, ◌*◌, ◌+◌, ◌≤◌, ◌<◌, compare, Ordering}
use mathlib.Core.Path.{◌≡◌, refl}
use mathlib.Core.Logic.{◌⊎◌, inl, inr}
use mathlib.Core.Bool.{Bool, true, false}
use mathlib.Core.Option.{Option, none, some}
use native.Mathlib.Decide.{dec_lt}
use native.Mathlib.Omega.{arith}

abbrev pub ltb : ℕ → ℕ → Bool
ltb a b = elim (compare a b) [ Ordering.lt ↦ true | _ ↦ false ]

abbrev pub leb : ℕ → ℕ → Bool
leb a b = elim (compare a b) [ Ordering.gt ↦ false | _ ↦ true ]

infix 50 ◌==◌
abbrev pub ◌==◌ : ℕ → ℕ → Bool
a == b = elim (compare a b) [ Ordering.eq ↦ true | _ ↦ false ]

infix 1 if◌then◌else◌
abbrev pub if◌then◌else◌ {ℓ} : {A : Type ℓ} → Bool → A → A → A
if true then x else y = x
if false then x else y = y

pub Bool-cases : (b : Bool) → (b ≡ true) ⊎ (b ≡ false)
Bool-cases true = inl refl
Bool-cases false = inr refl

pub Option-cases {ℓ} : {A : Type ℓ} (o : Option A) → (o ≡ none) ⊎ ((a : A) × (o ≡ some a))
Option-cases none = inl refl
Option-cases (some a) = inr (a, refl)

-- One more multiple fits below.
pub mul-add-le_of_lt : (a b c : ℕ) → a < b → a * c + c ≤ b * c
mul-add-le_of_lt a b c h = grind arith

-- A quotient is determined by a division with a remainder in range.
pub quotient_unique : (a b c r s : ℕ) → r < c → s < c → a * c + r ≡ b * c + s → a ≡ b
quotient_unique a b c r s hr hs e = elim (dec_lt a b) [
  | yes h ↦ absurd (omega (arith, mul-add-le_of_lt a b c h))
  | no h ↦ elim (dec_lt b a) [
    | yes h' ↦ absurd (omega (arith, mul-add-le_of_lt b a c h'))
    | no h' ↦ omega arith
  ]
]
