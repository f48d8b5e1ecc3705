-- ===== src/Base/Arrays.antt =====
-- Arrays of fixed size as functions of the index. The code allocates them once and never moves
-- them; an index outside the allocation has no meaning in the code, and the theorems about a cell
-- state the range of its index.
use Prim.Native.Nat.{ℕ, zero, suc, ◌+◌, ◌<◌, ◌≤◌}
use mathlib.Core.Path.{◌≡◌, refl, ap, ap₂, ◌∙◌}
use mathlib.Core.List.{List, [], ◌∷◌, ◌++◌}
use native.Mathlib.Omega.{arith}
use pbbperm.Base.Tests.{◌==◌, if◌then◌else◌}

module _ {ℓ} {A : Type ℓ} where
  -- `a[i] = v`
  abbrev pub write : (ℕ → A) → ℕ → A → ℕ → A
  write a i v j = if i == j then v else a j

  -- `m[l * size + i] = v`, for a matrix of which `l` is the row
  abbrev pub write2 : (ℕ → ℕ → A) → ℕ → ℕ → A → ℕ → ℕ → A
  write2 m l i v k j = if l == k then (if i == j then v else m k j) else m k j

  -- the cells from `i` on, `n` of them, as a list
  unfoldable pub slice : ℕ → ℕ → (ℕ → A) → List A
  slice zero i a = []
  slice (suc n) i a = a i ∷ slice n (suc i) a

  pub slice_congr :
      (n i : ℕ) (a b : ℕ → A)
      → ((j : ℕ) → i ≤ j → j < i + n → a j ≡ b j)
      → slice n i a ≡ slice n i b
  unfolding slice
  slice_congr zero i a b h = refl
  slice_congr (suc n) i a b h =
      ap₂ ◌∷◌ (h i (omega arith) (omega arith))
        (slice_congr n (suc i) a b λ j lo hi. h j (omega arith) (omega arith))

  pub slice-snoc : (n i : ℕ) (a : ℕ → A) → slice (suc n) i a ≡ slice n i a ++ a (i + n) ∷ []
  unfolding slice
  slice-snoc zero i a = ap (λ j. a j ∷ []) (omega arith)
  slice-snoc (suc n) i a =
      ap (◌∷◌ (a i))
        (slice-snoc n (suc i) a ∙ ap (λ j. slice n (suc i) a ++ a j ∷ []) (omega arith))

  pub slice_shift :
      (n i k : ℕ) (a b : ℕ → A)
      → ((j : ℕ) → j < n → a (i + j) ≡ b (k + j))
      → slice n i a ≡ slice n k b
  unfolding slice
  slice_shift zero i k a b h = refl
  slice_shift (suc n) i k a b h =
      ap₂ ◌∷◌ (ap a (omega arith) ∙ h 0 (omega arith) ∙ ap b (omega arith)) (
        slice_shift n (suc i) (suc k) a b
          λ j lt. ap a (omega arith) ∙ h (suc j) (omega arith) ∙ ap b (omega arith))

  pub slice_split : (n m i : ℕ) (a : ℕ → A) → slice (n + m) i a ≡ slice n i a ++ slice m (i + n) a
  unfolding slice
  slice_split zero m i a = ap₂ (λ k j. slice k j a) (omega arith) (omega arith)
  slice_split (suc n) m i a =
      let first : slice (suc n + m) i a ≡ slice (suc (n + m)) i a =
        ap (λ k. slice k i a) {y = suc (n + m)} (omega arith) in
      let rest : slice m (suc i + n) a ≡ slice m (i + suc n) a =
        ap (λ k. slice m k a) {y = i + suc n} (omega arith) in
      first ∙ ap (◌∷◌ (a i)) (slice_split n m (suc i) a ∙ ap (◌++◌ (slice n (suc i) a)) rest)

  pub slice_split_front : (n m : ℕ) (a : ℕ → A) → slice (n + m) 0 a ≡ slice n 0 a ++ slice m n a
  slice_split_front n m a =
      slice_split n m 0 a ∙ ap (λ k. slice n 0 a ++ slice m k a) {y = n} (omega arith)
