-- ===== src/Prelude/Bits.antt =====
-- `|`, `&`, `<<` and `>>` of JavaScript on 32-bit patterns, and what they are in plain arithmetic.
use Prim.Native.Nat.{
  ℕ, zero, suc, ◌+◌, ◌-◌, ◌*◌, ◌/◌, ◌%◌, ◌^◌, ◌≤◌, ◌<◌, min, max, digits, bitwise, bit_and, bit_or,
  bit_and-bitwise, bit_or-bitwise,
}
use mathlib.Core.Path.{◌≡◌, refl, ap}
use native.Mathlib.Nat.{pow-suc, one-le-pow}
use native.Mathlib.Omega.{arith}
use ttlive_cpp.Prelude.Tests.{ltb, if◌then◌else◌}

-- The digit recursion does not depend on its fuel, once there is enough.
enough_digits :
    (z : ℕ → ℕ) (f : ℕ → ℕ → ℕ) (a b k m : ℕ) → a ≤ m → a ≤ k → digits z f k a b ≡ digits z f m a b
enough_digits z f zero b zero zero _ _ = refl
enough_digits z f zero b zero (suc m) _ _ = refl
enough_digits z f zero b (suc k) zero _ _ = refl
enough_digits z f zero b (suc k) (suc m) _ _ = refl
enough_digits z f (suc a) b zero m _ low = absurd (omega arith)
enough_digits z f (suc a) b (suc k) zero low _ = absurd (omega arith)
enough_digits z f (suc a) b (suc k) (suc m) p q =
    rw (enough_digits z f (suc a / 2) (b / 2) k m (omega arith) (omega arith))

lowest_digit :
    (z : ℕ → ℕ) (f : ℕ → ℕ → ℕ) (a b : ℕ)
    → bitwise z f (suc a) b ≡ bitwise z f (suc a / 2) (b / 2) * 2 + f (suc a % 2) (b % 2)
lowest_digit z f a b =
    omega (arith, enough_digits z f (suc a / 2) (b / 2) a (suc a / 2) (omega arith) (omega arith))

or_digit : (a b : ℕ) → bit_or a b ≡ bit_or (a / 2) (b / 2) * 2 + max (a % 2) (b % 2)
or_digit zero b = simp bit_or-bitwise (omega arith)
or_digit (suc a) b = simp bit_or-bitwise (lowest_digit (λ y. y) max a b)

and_digit : (a b : ℕ) → bit_and a b ≡ bit_and (a / 2) (b / 2) * 2 + min (a % 2) (b % 2)
and_digit zero b = simp bit_and-bitwise (omega arith)
and_digit (suc a) b = simp bit_and-bitwise (lowest_digit (λ y. 0) min a b)

-- Fuel `n` bounds the value, so that the recursion on halves is structural.
or_nothing : (n a : ℕ) → a ≤ n → bit_or a 0 ≡ a
or_nothing n zero h = refl
or_nothing zero (suc a) h = absurd (omega arith)
or_nothing (suc n) (suc a) h =
    omega (arith, or_digit (suc a) 0, or_nothing n (suc a / 2) (omega arith))

and_nothing : (n a : ℕ) → a ≤ n → bit_and a 0 ≡ 0
and_nothing n zero h = refl
and_nothing zero (suc a) h = absurd (omega arith)
and_nothing (suc n) (suc a) h =
    omega (arith, and_digit (suc a) 0, and_nothing n (suc a / 2) (omega arith))

doubled : (q k : ℕ) → q * 2 ^ suc k ≡ q * 2 ^ k * 2
doubled q k = omega (arith, ap (λ (t : ℕ). q * t) (pow-suc 2 k))

-- A field above bit `k` and a field below it join by addition.
pub or_field : (k hi lo : ℕ) → lo < 2 ^ k → bit_or (hi * 2 ^ k) lo ≡ hi * 2 ^ k + lo
or_field zero hi lo fits = ground (arith, or_nothing hi hi (omega arith))
or_field (suc k) hi lo fits = ground (
  arith,
  or_digit (hi * 2 ^ suc k) lo,
  doubled hi k,
  or_field k hi (lo / 2) (omega (arith, pow-suc 2 k)),
)

and_field : (k hi lo : ℕ) → lo < 2 ^ k → bit_and (hi * 2 ^ k + lo) (2 ^ k - 1) ≡ lo
and_field zero hi lo fits =
    ground (arith, and_nothing (hi * 2 ^ 0 + lo) (hi * 2 ^ 0 + lo) (omega arith))
and_field (suc k) hi lo fits = ground (
  arith,
  and_digit (hi * 2 ^ suc k + lo) (2 ^ suc k - 1),
  doubled hi k,
  pow-suc 2 k,
  one-le-pow k 2,
  and_field k hi (lo / 2) (omega (arith, pow-suc 2 k)),
)

-- A mask of `k` ones takes the remainder by `2 ^ k`.
pub and_mask : (k a : ℕ) → bit_and a (2 ^ k - 1) ≡ a % 2 ^ k
and_mask k a = ground (arith, one-le-pow k 2, and_field k (a / 2 ^ k) (a % 2 ^ k))

-- `|` stays within the width of its operands, and absorbs into all ones.
pub or_bound : (k a b : ℕ) → a < 2 ^ k → b < 2 ^ k → bit_or a b < 2 ^ k
or_bound zero zero zero ha hb = omega arith
or_bound zero (suc a) b ha hb = absurd (omega arith)
or_bound zero zero (suc b) ha hb = absurd (omega arith)
or_bound (suc k) a b ha hb = omega (
  arith,
  or_digit a b,
  pow-suc 2 k,
  or_bound k (a / 2) (b / 2) (omega (arith, pow-suc 2 k)) (omega (arith, pow-suc 2 k)),
)

pub or_ones : (k a : ℕ) → a < 2 ^ k → bit_or a (2 ^ k - 1) ≡ 2 ^ k - 1
or_ones zero zero h = refl
or_ones zero (suc a) h = absurd (omega arith)
or_ones (suc k) a h = ground (
  arith,
  or_digit a (2 ^ suc k - 1),
  pow-suc 2 k,
  one-le-pow k 2,
  or_ones k (a / 2) (omega (arith, pow-suc 2 k)),
)

-- An operand of JavaScript's `|`, `&`, `<<` and `>>` is taken modulo 2 ^ 32.
infixl 65 ◌<<◌ ◌>>◌
abbrev pub ◌<<◌ : ℕ → ℕ → ℕ
x << k = x * 2 ^ k % 2 ^ 32

-- `>>` copies the sign, bit 31, into the places that it frees.
abbrev pub ◌>>◌ : ℕ → ℕ → ℕ
x >> k = if ltb x (2 ^ 31) then x / 2 ^ k else x / 2 ^ k + (2 ^ 32 - 2 ^ (32 - k))

-- The pattern of -1.
abbrev pub minus_one : ℕ
minus_one = 2 ^ 32 - 1
