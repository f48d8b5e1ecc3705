-- ===== src/Sorting/Ints.antt =====
-- The order of the keys: `int` by key, and two keys by the first and then the second.
use pbbperm.Base.{◌≡◌, true, false, arith, ℤ, pos, negsuc}
use pbbperm.Sorting.{gtb_ℤ}

pub gtb_ℤ-asym : (a b : ℤ) → gtb_ℤ a b ≡ true → gtb_ℤ b a ≡ false
unfolding gtb_ℤ
gtb_ℤ-asym (pos a) (pos b) e = ground (arith, e)
gtb_ℤ-asym (pos a) (negsuc b) e = ground (arith, e)
gtb_ℤ-asym (negsuc a) (pos b) e = ground (arith, e)
gtb_ℤ-asym (negsuc a) (negsuc b) e = ground (arith, e)

pub gtb_ℤ-trans : (a b c : ℤ) → gtb_ℤ a b ≡ false → gtb_ℤ b c ≡ false → gtb_ℤ a c ≡ false
unfolding gtb_ℤ
gtb_ℤ-trans (pos a) (pos b) (pos c) e f = ground (arith, e, f)
gtb_ℤ-trans (pos a) (pos b) (negsuc c) e f = ground (arith, e, f)
gtb_ℤ-trans (pos a) (negsuc b) c e f = absurd (ground (arith, e))
gtb_ℤ-trans (negsuc a) (pos b) (pos c) e f = ground (arith, e, f)
gtb_ℤ-trans (negsuc a) (pos b) (negsuc c) e f = absurd (ground (arith, f))
gtb_ℤ-trans (negsuc a) (negsuc b) (pos c) e f = ground (arith, e, f)
gtb_ℤ-trans (negsuc a) (negsuc b) (negsuc c) e f = ground (arith, e, f)
