-- ===== src/Shim/Utf8/RoundTrip.antt =====
-- `decode` reads back what `encode` wrote, for text whose surrogates come in pairs.
use mathlib.Core.List.{append-nil}
use ttlive_cpp.Prelude.{
  ℕ, zero, suc, ◌+◌, ◌-◌, ◌*◌, ◌/◌, ◌%◌, ◌^◌, ◌≤◌, ◌<◌, ◌≡◌, refl, sym, ap, ◌∙◌, arith, List, [],
  ◌∷◌, ◌++◌, false, length, length-append,
}
use ttlive_cpp.Prelude.Bits.{or_field, and_mask}
use ttlive_cpp.Shim.Utf8.{
  two_bytes, three_bytes, four_bytes, unit_bytes, pair_code, encode, is_surrogate, from_two,
  from_three, from_four, split_code, decode_loop, decode_bytes, decode, buffer, view, advance,
}
use ttlive_cpp.Shim.Utf8.Encode.{two_bytes-eq, three_bytes-eq, four_bytes-eq, pair_code-eq}

from_two-eq : (b c : ℕ) → from_two b c ≡ b % 32 * 64 + c % 64
unfolding from_two
from_two-eq b c =
    ground (arith, and_mask 5 b, and_mask 6 c, or_field 6 (b % 32) (c % 64) (omega arith))

from_three-eq : (b c d : ℕ) → from_three b c d ≡ b % 16 * 4096 + c % 64 * 64 + d % 64
unfolding from_three
from_three-eq b c d = ground (
  arith,
  and_mask 4 b,
  and_mask 6 c,
  and_mask 6 d,
  or_field 12 (b % 16) (c % 64 * 64) (omega arith),
  or_field 6 (b % 16 * 64 + c % 64) (d % 64) (omega arith),
)

from_four-eq :
    (b c d e : ℕ) → from_four b c d e ≡ b % 8 * 262144 + c % 64 * 4096 + d % 64 * 64 + e % 64
unfolding from_four
from_four-eq b c d e = ground (
  arith,
  and_mask 3 b,
  and_mask 6 c,
  and_mask 6 d,
  and_mask 6 e,
  or_field 18 (b % 8) (c % 64 * 4096) (omega arith),
  or_field 12 (b % 8 * 64 + c % 64) (d % 64 * 64) (omega arith),
  or_field 6 (b % 8 * 4096 + c % 64 * 64 + d % 64) (e % 64) (omega arith),
)

split_code-eq :
    (code : ℕ)
    → 0x10000 ≤ code
    → code < 0x110000
    → split_code code ≡ (0xd800 + (code - 0x10000) / 1024) ∷ (0xdc00 + code % 1024) ∷ []
unfolding split_code
split_code-eq code lo hi = ground (arith, and_mask 10 ((code + 2 ^ 32 - 0x10000) % 2 ^ 32))

-- A unit that is no surrogate is read back from its bytes, whatever follows them.
decode_unit :
    (fuel c : ℕ) (rest : List ℕ)
    → is_surrogate c ≡ false
    → c < 0x10000
    → decode_loop (suc fuel) (unit_bytes c ++ rest) ≡ c ∷ decode_loop fuel rest
unfolding decode_loop unit_bytes is_surrogate
decode_unit fuel c rest plain h = ground (
  arith,
  two_bytes-eq c,
  three_bytes-eq c,
  from_two-eq (0xc0 + c / 64) (0x80 + c % 64),
  from_three-eq (0xe0 + c / 4096) (0x80 + c / 64 % 64) (0x80 + c % 64),
)

decode_pair :
    (fuel c d : ℕ) (rest : List ℕ)
    → 0xd800 ≤ c
    → c < 0xdc00
    → 0xdc00 ≤ d
    → d < 0xe000
    → decode_loop (suc fuel) (four_bytes (pair_code c d) ++ rest) ≡ c ∷ d ∷ decode_loop fuel rest
unfolding decode_loop
decode_pair fuel c d rest hc hc' hd hd' = rw (pair_code-eq c d) (
    ground (
      arith,
      four_bytes-eq (0x10000 + c % 1024 * 1024 + d % 1024),
      from_four-eq (0xf0 + (0x10000 + c % 1024 * 1024 + d % 1024) / 262144)
          (0x80 + (0x10000 + c % 1024 * 1024 + d % 1024) / 4096 % 64)
          (0x80 + (0x10000 + c % 1024 * 1024 + d % 1024) / 64 % 64)
          (0x80 + (0x10000 + c % 1024 * 1024 + d % 1024) % 64),
      split_code-eq (0x10000 + c % 1024 * 1024 + d % 1024),
    ))

-- Text whose surrogates come in pairs of a high and a low one.
pub data WellFormed : List ℕ → Type 0 where
  nil : WellFormed []
  unit :
      {c : ℕ} {s : List ℕ}
      → is_surrogate c ≡ false
      → c < 0x10000
      → WellFormed s
      → WellFormed (c ∷ s)
  pair :
      {c d : ℕ} {s : List ℕ}
      → 0xd800 ≤ c
      → c < 0xdc00
      → 0xdc00 ≤ d
      → d < 0xe000
      → WellFormed s
      → WellFormed (c ∷ d ∷ s)

encode_unit :
    (c : ℕ) (s : List ℕ) → is_surrogate c ≡ false → encode (c ∷ s) ≡ unit_bytes c ++ encode s
unfolding encode
encode_unit c [] e = rw e (sym (append-nil (unit_bytes c)))
encode_unit c (d ∷ s) e = rw e

encode_pair :
    (c d : ℕ) (s : List ℕ)
    → 0xd800 ≤ c
    → c < 0xdc00
    → encode (c ∷ d ∷ s) ≡ four_bytes (pair_code c d) ++ encode s
unfolding encode is_surrogate
encode_pair c d s lo hi = ground arith

unit_bytes-pos : (c : ℕ) → 1 ≤ length (unit_bytes c)
unfolding unit_bytes two_bytes three_bytes
unit_bytes-pos c = ground arith

four_bytes-pos : (c : ℕ) → 1 ≤ length (four_bytes c)
unfolding four_bytes
four_bytes-pos c = omega arith

decode_loop-encode :
    (fuel : ℕ) {s : List ℕ}
    → WellFormed s
    → length (encode s) ≤ fuel
    → decode_loop fuel (encode s) ≡ s
decode_loop-encode zero nil h = unfold encode decode_loop in refl
decode_loop-encode (suc fuel) nil h = unfold encode decode_loop in refl
decode_loop-encode zero (unit {c} {s} plain small w) h = absurd (
    omega (
      arith,
      ap length (encode_unit c s plain),
      length-append (unit_bytes c) (encode s),
      unit_bytes-pos c,
    ))
decode_loop-encode (suc fuel) (unit {c} {s} plain small w) h = rw (encode_unit c s plain) (
    decode_unit fuel c (encode s) plain small
    ∙ ap (◌∷◌ c) (
        decode_loop-encode fuel w (
          omega (
            arith,
            ap length (encode_unit c s plain),
            length-append (unit_bytes c) (encode s),
            unit_bytes-pos c,
          ))))
decode_loop-encode zero (pair {c} {d} {s} hc hc' hd hd' w) h = absurd (
    omega (
      arith,
      ap length (encode_pair c d s hc hc'),
      length-append (four_bytes (pair_code c d)) (encode s),
      four_bytes-pos (pair_code c d),
    ))
decode_loop-encode (suc fuel) (pair {c} {d} {s} hc hc' hd hd' w) h = rw (encode_pair c d s hc hc') (
    decode_pair fuel c d (encode s) hc hc' hd hd'
    ∙ ap (λ (t : List ℕ). c ∷ d ∷ t)
        (decode_loop-encode fuel w (
          omega (
            arith,
            ap length (encode_pair c d s hc hc'),
            length-append (four_bytes (pair_code c d)) (encode s),
            four_bytes-pos (pair_code c d),
          ))))

-- Text whose surrogates come in pairs is read back from the bytes that `encode` made of it.
pub decode-encode : (s : List ℕ) → WellFormed s → decode (buffer (encode s)) ≡ s
unfolding decode decode_bytes
decode-encode s w = decode_loop-encode (length (encode s)) w (omega arith)

-- Of a view `decode` reads the whole buffer: the text before the view comes out too.
pub decode_view_whole :
    (before after : List ℕ) (offset size : ℕ)
    → WellFormed (before ++ after)
    → decode (view (encode (before ++ after)) offset size) ≡ before ++ after
unfolding decode decode_bytes
decode_view_whole before after offset size w = decode_loop-encode _ w (omega arith)

length-advance : (s : List ℕ) → length (advance s) ≤ length s
length-advance [] = omega arith
length-advance (b ∷ s) = omega arith

-- The number of bytes is fuel enough: more fuel changes nothing.
pub decode_loop-enough :
    (m n : ℕ) (s : List ℕ) → length s ≤ m → length s ≤ n → decode_loop m s ≡ decode_loop n s
unfolding decode_loop
decode_loop-enough zero zero s p q = refl
decode_loop-enough zero (suc n) [] p q = refl
decode_loop-enough zero (suc n) (b ∷ s) p q = absurd (omega arith)
decode_loop-enough (suc m) zero [] p q = refl
decode_loop-enough (suc m) zero (b ∷ s) p q = absurd (omega arith)
decode_loop-enough (suc m) (suc n) [] p q = refl
decode_loop-enough (suc m) (suc n) (b ∷ s) p q =
    let one = length-advance s in
    let two = length-advance (advance s) in
    let three = length-advance (advance (advance s)) in
    rw (
      decode_loop-enough m n s (omega arith) (omega arith),
      decode_loop-enough m n (advance s) (omega arith) (omega arith),
      decode_loop-enough m n (advance (advance s)) (omega arith) (omega arith),
      decode_loop-enough m n (advance (advance (advance s))) (omega arith) (omega arith),
    )
