-- ===== src/Base/Int.antt =====
-- `int` cells that hold a job or a flagged job. common/include/misc.h flags job i as -i - 1, which is
-- `negsuc i`.
use Prim.Native.Nat.{ℕ}
use mathlib.Core.Path.{◌≡◌, refl}
use mathlib.Core.Bool.{Bool, true, false}

-- `negsuc n` is -(n + 1).
pub data ℤ : Type 0 where
  pos : ℕ → ℤ
  negsuc : ℕ → ℤ

abbrev pub is_negative : ℤ → Bool
is_negative (pos n) = false
is_negative (negsuc n) = true

-- `negative`
unfoldable pub negative : ℤ → ℤ
negative (pos n) = negsuc n
negative (negsuc n) = negsuc n

-- `absolute`
unfoldable pub absolute : ℤ → ℕ
absolute (pos n) = n
absolute (negsuc n) = n

-- `removeFlag` of ivm.cpp
unfoldable pub remove_flag : ℤ → ℤ
remove_flag (pos n) = pos n
remove_flag (negsuc n) = pos n

pub absolute-negative : (z : ℤ) → absolute (negative z) ≡ absolute z
unfolding absolute negative
absolute-negative (pos n) = refl
absolute-negative (negsuc n) = refl

pub absolute-remove_flag : (z : ℤ) → absolute (remove_flag z) ≡ absolute z
unfolding absolute remove_flag
absolute-remove_flag (pos n) = refl
absolute-remove_flag (negsuc n) = refl

pub is_negative-negative : (z : ℤ) → is_negative (negative z) ≡ true
unfolding negative
is_negative-negative (pos n) = refl
is_negative-negative (negsuc n) = refl

pub is_negative-remove_flag : (z : ℤ) → is_negative (remove_flag z) ≡ false
unfolding remove_flag
is_negative-remove_flag (pos n) = refl
is_negative-remove_flag (negsuc n) = refl
