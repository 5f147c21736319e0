-- ===== src/Shim/Base64/Decode.antt =====
-- What `atob` reads back from the output of `btoa`.
use Prim.Native.Nat.{bit_or}
use mathlib.Core.Path.{ap₂}
use ttlive_cpp.Prelude.{
  ℕ, ◌+◌, ◌*◌, ◌/◌, ◌%◌, ◌^◌, ◌<◌, ◌≡◌, refl, ◌∙◌, arith, List, [], ◌∷◌, ◌++◌, All, ◌==◌, false,
  ◌⊎◌, inl, inr,
}
use ttlive_cpp.Prelude.Bits.{◌<<◌, ◌>>◌, or_field, or_bound, or_ones, and_mask, minus_one}
use ttlive_cpp.Shim.Base64.{
  char_at, join_units, btoa, strip_pad, decode_group, decode_loop, atob, unless_pad,
}
use ttlive_cpp.Shim.Base64.Encode.{IsByte, join_units-eq, char_at_lem}

-- Four numbers below 64 are put side by side.
gather :
    (a b c d : ℕ)
    → a < 64
    → b < 64
    → c < 64
    → d < 64
    → bit_or (bit_or (bit_or (a << 18) (b << 12)) (c << 6)) (d % 2 ^ 32)
      ≡ a * 2 ^ 18 + b * 2 ^ 12 + c * 2 ^ 6 + d
gather a b c d ha hb hc hd = ground (
  arith,
  or_field 18 a (b * 2 ^ 12) (omega arith),
  or_field 12 (a * 64 + b) (c * 64) (omega arith),
  or_field 6 (a * 4096 + b * 64 + c) d (omega arith),
)

pub decode_group-eq :
    (a b c d : ℕ)
    → a < 64
    → b < 64
    → c < 64
    → d < 64
    → decode_group a b c d ≡ (a * 4 + b / 16) ∷ (b % 16 * 16 + c / 4) ∷ (c % 4 * 64 + d) ∷ []
unfolding decode_group
decode_group-eq a b c d ha hb hc hd = rw (gather a b c d ha hb hc hd) (
    ground (
      arith,
      and_mask 8 ((a * 2 ^ 18 + b * 2 ^ 12 + c * 2 ^ 6 + d) / 2 ^ 16),
      and_mask 8 ((a * 2 ^ 18 + b * 2 ^ 12 + c * 2 ^ 6 + d) / 2 ^ 8),
      and_mask 8 (a * 2 ^ 18 + b * 2 ^ 12 + c * 2 ^ 6 + d),
    ))

strip_pad-keeps :
    (c : ℕ) (rest : List ℕ) → (c == b'=') ≡ false → strip_pad (c ∷ rest) ≡ c ∷ strip_pad rest
unfolding strip_pad
strip_pad-keeps c rest h = ground (arith, Option-head (strip_pad rest))
  where
    Option-head : (xs : List ℕ) → (xs ≡ []) ⊎ ((y : ℕ) × (ys : List ℕ) × (xs ≡ y ∷ ys))
    Option-head [] = inl refl
    Option-head (y ∷ ys) = inr (y, ys, refl)

-- What `atob` makes of the output of `btoa`: whole groups come back, a last group of one or two
-- bytes comes back as three bytes 0xff.
abbrev pub read_back : List ℕ → List ℕ
read_back [] = []
read_back (a ∷ []) = 255 ∷ 255 ∷ 255 ∷ []
read_back (a ∷ b ∷ []) = 255 ∷ 255 ∷ 255 ∷ []
read_back (a ∷ b ∷ c ∷ rest) = a ∷ b ∷ c ∷ read_back rest

letters :
    (p q r s : ℕ) (rest : List ℕ)
    → atob (char_at p ∷ char_at q ∷ char_at r ∷ char_at s ∷ rest)
      ≡ decode_group (p % 64) (q % 64) (r % 64) (s % 64) ++ atob rest
unfolding atob decode_loop
letters p q r s rest = rw (
  strip_pad-keeps (char_at p) _ (char_at_lem p).1,
  strip_pad-keeps (char_at q) _ (char_at_lem q).1,
  strip_pad-keeps (char_at r) _ (char_at_lem r).1,
  strip_pad-keeps (char_at s) rest (char_at_lem s).1,
  (char_at_lem p).0,
  (char_at_lem q).0,
  (char_at_lem r).0,
  (char_at_lem s).0,
)

-- With a fourth index of -1 every bit is set.
all_ones : (a b c : ℕ) → decode_group a b c minus_one ≡ 255 ∷ (unless_pad c 255 ++ 255 ∷ [])
unfolding decode_group
all_ones a b c = rw (
    or_ones 32 (bit_or (bit_or (a << 18) (b << 12)) (c << 6)) (
      or_bound 32 (bit_or (a << 18) (b << 12)) (c << 6)
        (or_bound 32 (a << 18) (b << 12) (omega arith) (omega arith)) (omega arith)))

strip_pad_one : strip_pad (b'=' ∷ []) ≡ []
unfolding strip_pad
strip_pad_one = refl

strip_pad_two : strip_pad (b'=' ∷ b'=' ∷ []) ≡ []
unfolding strip_pad
strip_pad_two = refl

padded : (p q : ℕ) → atob (char_at p ∷ char_at q ∷ b'=' ∷ b'=' ∷ []) ≡ 255 ∷ 255 ∷ 255 ∷ []
unfolding atob decode_loop
padded p q =
    rw
      (
        strip_pad-keeps (char_at p) _ (char_at_lem p).1,
        strip_pad-keeps (char_at q) _ (char_at_lem q).1,
        strip_pad_two,
        (char_at_lem p).0,
        (char_at_lem q).0,
      )
      (all_ones (p % 64) (q % 64) minus_one)

padded_once :
    (p q r : ℕ) → atob (char_at p ∷ char_at q ∷ char_at r ∷ b'=' ∷ []) ≡ 255 ∷ 255 ∷ 255 ∷ []
unfolding atob decode_loop
padded_once p q r =
    rw
      (
        strip_pad-keeps (char_at p) _ (char_at_lem p).1,
        strip_pad-keeps (char_at q) _ (char_at_lem q).1,
        strip_pad-keeps (char_at r) _ (char_at_lem r).1,
        strip_pad_one,
        (char_at_lem p).0,
        (char_at_lem q).0,
        (char_at_lem r).0,
      )
      (all_ones (p % 64) (q % 64) (r % 64) ∙ ground arith)

whole_group :
    (a b c : ℕ)
    → IsByte a
    → IsByte b
    → IsByte c
    → let w = join_units a b c in
      decode_group ((w >> 18) % 64) ((w >> 12) % 64) ((w >> 6) % 64) (w % 64) ≡ a ∷ b ∷ c ∷ []
whole_group a b c ha hb hc = rw (join_units-eq a b c ha hb hc) (
    ground (
      arith,
      decode_group-eq ((a * 65536 + b * 256 + c) / 2 ^ 18 % 64)
          ((a * 65536 + b * 256 + c) / 2 ^ 12 % 64) ((a * 65536 + b * 256 + c) / 2 ^ 6 % 64)
          ((a * 65536 + b * 256 + c) % 64),
    ))

-- `atob` after `btoa`, on bytes: each whole group of three bytes comes back, and a last group of
-- one or two bytes comes back as three bytes 0xff.
pub atob-btoa : (s : List ℕ) → All IsByte s → atob (btoa s) ≡ read_back s
unfolding btoa
atob-btoa [] h = unfold atob decode_loop strip_pad in refl
atob-btoa (a ∷ []) h = padded (join_units a 0 0 >> 18) (join_units a 0 0 >> 12)
atob-btoa (a ∷ b ∷ []) h =
    padded_once (join_units a b 0 >> 18) (join_units a b 0 >> 12) (join_units a b 0 >> 6)
atob-btoa (a ∷ b ∷ c ∷ rest) (ha, (hb, (hc, h))) =
    let w : ℕ = join_units a b c in
    letters (w >> 18) (w >> 12) (w >> 6) w (btoa rest)
    ∙ ap₂ ◌++◌ (whole_group a b c ha hb hc) (atob-btoa rest h)
