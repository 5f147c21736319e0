-- ===== src/Shim/Utf8/Encode.antt =====
-- The bytes that `encode` writes, in plain arithmetic.
use Prim.Native.Nat.{bit_or}
use ttlive_cpp.Prelude.{
  ℕ, ◌+◌, ◌*◌, ◌/◌, ◌%◌, ◌<◌, ◌≡◌, refl, arith, List, [], ◌∷◌, All, All-append, ltb, true,
  Bool-cases, inl, inr, ◌==◌, ◌&&◌, holds_below, holds_below-at, if◌then◌else◌,
}
use ttlive_cpp.Prelude.Bits.{or_field, and_mask}
use ttlive_cpp.Shim.Utf8.{
  continuation, two_bytes, three_bytes, four_bytes, unit_bytes, pair_code, encode, is_surrogate,
}

-- A lead byte is its mark and the bits below it.
marks_table :
    holds_below
      (λ v.
        (bit_or 0x80 v == 0x80 + v)
        && (if ltb v 32 then bit_or 0xc0 v == 0xc0 + v else true)
        && (if ltb v 16 then bit_or 0xe0 v == 0xe0 + v else true)
        && (if ltb v 8 then bit_or 0xf0 v == 0xf0 + v else true))
      64
    ≡ true
unfolding holds_below
marks_table = refl

mark_80 : (v : ℕ) → v < 64 → bit_or 0x80 v ≡ 0x80 + v
mark_80 v h = ground (arith, holds_below-at _ 64 marks_table v h)

mark_c0 : (v : ℕ) → v < 32 → bit_or 0xc0 v ≡ 0xc0 + v
mark_c0 v h = ground (arith, holds_below-at _ 64 marks_table v (omega arith))

mark_e0 : (v : ℕ) → v < 16 → bit_or 0xe0 v ≡ 0xe0 + v
mark_e0 v h = ground (arith, holds_below-at _ 64 marks_table v (omega arith))

mark_f0 : (v : ℕ) → v < 8 → bit_or 0xf0 v ≡ 0xf0 + v
mark_f0 v h = ground (arith, holds_below-at _ 64 marks_table v (omega arith))

pub continuation-eq : (v : ℕ) → continuation v ≡ 0x80 + v % 64
unfolding continuation
continuation-eq v = ground (arith, and_mask 6 v, mark_80 (v % 64) (omega arith))

pub two_bytes-eq : (c : ℕ) → c < 0x800 → two_bytes c ≡ (0xc0 + c / 64) ∷ (0x80 + c % 64) ∷ []
unfolding two_bytes
two_bytes-eq c h = ground (arith, continuation-eq c, mark_c0 (c / 64) (omega arith))

pub three_bytes-eq :
    (c : ℕ)
    → c < 0x10000
    → three_bytes c ≡ (0xe0 + c / 4096) ∷ (0x80 + c / 64 % 64) ∷ (0x80 + c % 64) ∷ []
unfolding three_bytes
three_bytes-eq c h =
    ground (arith, continuation-eq c, continuation-eq (c / 64), mark_e0 (c / 4096) (omega arith))

pub four_bytes-eq :
    (c : ℕ)
    → c < 0x200000
    → four_bytes c
      ≡ (0xf0 + c / 262144) ∷ (0x80 + c / 4096 % 64) ∷ (0x80 + c / 64 % 64) ∷ (0x80 + c % 64) ∷ []
unfolding four_bytes
four_bytes-eq c h = ground (
  arith,
  continuation-eq c,
  continuation-eq (c / 64),
  continuation-eq (c / 4096),
  mark_f0 (c / 262144) (omega arith),
)

pub pair_code-eq : (c d : ℕ) → pair_code c d ≡ 0x10000 + c % 1024 * 1024 + d % 1024
unfolding pair_code
pair_code-eq c d =
    ground (arith, and_mask 10 c, and_mask 10 d, or_field 10 (c % 1024) (d % 1024) (omega arith))

abbrev pub IsUnit : ℕ → Type 0
IsUnit c = c < 0x10000

abbrev pub IsByte : ℕ → Type 0
IsByte b = b < 256

unit_bytes-IsByte : (c : ℕ) → IsUnit c → All IsByte (unit_bytes c)
unfolding unit_bytes
unit_bytes-IsByte c h = ground (arith, two_bytes-eq c, three_bytes-eq c)

pair_bytes-IsByte : (c d : ℕ) → All IsByte (four_bytes (pair_code c d))
pair_bytes-IsByte c d =
    rw (pair_code-eq c d)
      (rw (four_bytes-eq (0x10000 + c % 1024 * 1024 + d % 1024) (omega arith)) (omega arith))

-- Every element that `encode` pushes is below 256, so the `Uint8Array` stores it unchanged.
pub encode-IsByte : (s : List ℕ) → All IsUnit s → All IsByte (encode s)
unfolding encode
encode-IsByte [] h = tt
encode-IsByte (c ∷ []) h = elim (Bool-cases (is_surrogate c)) [
  | inl e ↦ rw e (pair_bytes-IsByte c 0)
  | inr e ↦ rw e (unit_bytes-IsByte c h.0)
]
encode-IsByte (c ∷ d ∷ s) h = elim (Bool-cases (is_surrogate c)) [
  | inl e ↦ rw e (All-append IsByte _ (encode s) (pair_bytes-IsByte c d) (encode-IsByte s h.1.1))
  | inr e ↦
      rw e
        (All-append IsByte _ (encode (d ∷ s)) (unit_bytes-IsByte c h.0) (encode-IsByte (d ∷ s) h.1))
]
