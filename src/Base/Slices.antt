-- ===== src/Base/Slices.antt =====
-- Slices of an array from which a cell is left out.
use mathlib.Core.List.Perm
use Prim.Native.Nat.{ℕ, zero, suc, ◌+◌, ◌≤◌}
use mathlib.Core.Path.{◌≡◌, refl, ap, sym, subst}
use mathlib.Core.List.{List, [], ◌∷◌, ◌++◌, Perm}
use native.Mathlib.Omega.{arith}
use native.Mathlib.Decide.{ℕ_discrete}
use pbbperm.Base.Tests.{ltb, if◌then◌else◌}
use pbbperm.Base.Arrays.{slice, slice_shift}
use pbbperm.Base.Lists.{length}

module _ {ℓ} {A : Type ℓ} where
  -- the cells of `a` but cell `c`
  abbrev pub skip : ℕ → (ℕ → A) → ℕ → A
  skip c a i = if ltb i c then a i else a (suc i)

  pub slice-skip_after : (n i c : ℕ) (a : ℕ → A) → c ≤ i → slice n i (skip c a) ≡ slice n (suc i) a
  slice-skip_after n i c a h =
      slice_shift n i (suc i) _ _
        λ j hj. let e : suc (i + j) ≡ suc i + j = omega arith in ground (arith, ap a e)

  -- Taking a cell out of a slice and putting it in front.
  pub slice-skip-perm :
      (n i c : ℕ) (a : ℕ → A)
      → i ≤ c
      → c ≤ i + n
      → Perm (a c ∷ slice n i (skip c a)) (slice (suc n) i a)
  unfolding slice
  slice-skip-perm zero i c a lo hi = let e : c ≡ i = omega arith in Perm.cons' (ap a e) Perm.nil
  slice-skip-perm (suc n) i c a lo hi = elim (ℕ_discrete i c) [
    | yes e ↦ Perm.cons' (ap a (sym e)) (
        subst (λ l. Perm l (slice (suc n) (suc i) a))
          (sym (slice-skip_after (suc n) i c a (omega arith))) (Perm.refl _))
    | no ne ↦
        Perm.trans (Perm.swap _ _ _)
          (Perm.cons' (ground arith) (slice-skip-perm n (suc i) c a (omega arith) (omega arith)))
  ]

  pub length-slice : (n i : ℕ) (a : ℕ → A) → length (slice n i a) ≡ n
  unfolding slice
  length-slice zero i a = refl
  length-slice (suc n) i a = ap suc (length-slice n (suc i) a)

  -- A list with a head has a last entry.
  pub split_last : (x : A) (xs : List A) → (ys : List A) × (y : A) × (x ∷ xs ≡ ys ++ y ∷ [])
  split_last x [] = ([], x, refl)
  split_last x (z ∷ zs) = let (ys, y, e) = split_last z zs in (x ∷ ys, y, ap (◌∷◌ x) e)
