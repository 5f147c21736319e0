-- ===== src/Prelude/Int.antt =====
-- Signed numbers over the native ℕ, and their test for equality.
use Prim.Native.Nat.{ℕ}
use mathlib.Core.Path.{◌≡◌, refl}
use mathlib.Core.Logic.{◌↔◌}
use mathlib.Core.Bool.{Bool, true, false}
use native.Mathlib.Omega.{arith}
use ttlive_cpp.Prelude.Tests.{◌==◌, ==_iff}

pub data ℤ : Type 0 where
  pos negsuc : ℕ → ℤ

unfoldable pub same_int : ℤ → ℤ → Bool
same_int (pos m) (pos n) = m == n
same_int (negsuc m) (negsuc n) = m == n
same_int (pos m) (negsuc n) = false
same_int (negsuc m) (pos n) = false

pub same_int_iff : (a b : ℤ) → (same_int a b ≡ true) ↔ (a ≡ b)
unfolding same_int
same_int_iff (pos m) (pos n) = ground (arith, ==_iff m n)
same_int_iff (negsuc m) (negsuc n) = ground (arith, ==_iff m n)
same_int_iff (pos m) (negsuc n) = ground arith
same_int_iff (negsuc m) (pos n) = ground arith

pub same_int_refl : (a : ℤ) → same_int a a ≡ true
same_int_refl a = (same_int_iff a a).1 refl
