-- ===== src/Shim/Base64.antt =====
-- `atob` and `btoa` of js/hybrid-fake-dom.js. A string is its list of code units; the bit
-- operations act on 32-bit patterns.
pub mod Encode
pub mod Decode
mod Tests
use Prim.Native.Nat.{bit_and, bit_or}
use ttlive_cpp.Prelude.{
  ℕ, zero, suc, ◌%◌, ◌^◌, Bool, List, [], ◌∷◌, ◌++◌, Option, none, some, ◌==◌, if◌then◌else◌,
  get_or, codes,
}
use ttlive_cpp.Prelude.Bits.{◌<<◌, ◌>>◌, minus_one}

-- `chars` without its last character, as `btoa` has it.
abbrev pub alphabet : List ℕ
alphabet = codes "ABCDEFGHIJKLMNOPQRSTUVWXYZabcdefghijklmnopqrstuvwxyz0123456789+/"

abbrev pub alphabet_pad : List ℕ
alphabet_pad = codes "ABCDEFGHIJKLMNOPQRSTUVWXYZabcdefghijklmnopqrstuvwxyz0123456789+/="

-- `String.prototype.indexOf` of a one-character text: the first place, or -1.
index_from : ℕ → ℕ → List ℕ → ℕ
index_from i c [] = minus_one
index_from i c (x ∷ xs) = if x == c then i else index_from (suc i) c xs

-- `chars.indexOf(str[i])`. A place past the end is `undefined`, which `indexOf` reads as the text
-- "undefined": that is not in the alphabet.
abbrev pub index_of : Option ℕ → ℕ
unfolding index_from
index_of none = minus_one
index_of (some c) = index_from 0 c alphabet_pad

-- `str.replace(/=+$/, '')`
unfoldable pub strip_pad : List ℕ → List ℕ
strip_pad [] = []
strip_pad (x ∷ xs) = elim (strip_pad xs) [
  | [] ↦ if x == b'=' then [] else x ∷ []
  | y ∷ ys ↦ x ∷ y ∷ ys
]

-- `String.fromCharCode(v & 0xFF)`
abbrev pub byte_of : ℕ → ℕ
byte_of v = bit_and v 0xff

abbrev pub unless_pad : ℕ → ℕ → List ℕ
unless_pad c v = if c == 64 then [] else v ∷ []

-- The body of the loop of `atob`: up to three bytes of a group of four characters.
pub decode_group : ℕ → ℕ → ℕ → ℕ → List ℕ
decode_group a b c d =
    let bits = bit_or (bit_or (bit_or (a << 18) (b << 12)) (c << 6)) (d % 2 ^ 32) in
    byte_of (bits >> 16) ∷ (unless_pad c (byte_of (bits >> 8)) ++ unless_pad d (byte_of bits))

-- The loop of `atob`, four characters to a round.
pub decode_loop : List ℕ → List ℕ
unfolding decode_group index_from
decode_loop [] = []
decode_loop (p ∷ []) =
    decode_group (index_of (some p)) (index_of none) (index_of none) (index_of none)
decode_loop (p ∷ q ∷ []) =
    decode_group (index_of (some p)) (index_of (some q)) (index_of none) (index_of none)
decode_loop (p ∷ q ∷ r ∷ []) =
    decode_group (index_of (some p)) (index_of (some q)) (index_of (some r)) (index_of none)
decode_loop (p ∷ q ∷ r ∷ s ∷ rest) =
    decode_group (index_of (some p)) (index_of (some q)) (index_of (some r)) (index_of (some s))
    ++ decode_loop rest

unfoldable pub atob : List ℕ → List ℕ
atob str = decode_loop (strip_pad str)

-- `chars[k & 63]`; the mask keeps the index inside the alphabet.
unfoldable pub char_at : ℕ → ℕ
char_at k = get_or alphabet (bit_and k 63) 0

-- `(a << 16) | ((b || 0) << 8) | (c || 0)`
unfoldable pub join_units : ℕ → ℕ → ℕ → ℕ
join_units a b c = bit_or (bit_or (a << 16) (b << 8)) (c % 2 ^ 32)

-- `charCodeAt` past the end is NaN, and `NaN || 0` is 0.
unfoldable pub btoa : List ℕ → List ℕ
btoa [] = []
btoa (a ∷ []) =
    let bits = join_units a 0 0 in char_at (bits >> 18) ∷ char_at (bits >> 12) ∷ b'=' ∷ b'=' ∷ []
btoa (a ∷ b ∷ []) =
    let bits = join_units a b 0 in
    char_at (bits >> 18) ∷ char_at (bits >> 12) ∷ char_at (bits >> 6) ∷ b'=' ∷ []
btoa (a ∷ b ∷ c ∷ rest) =
    let bits = join_units a b c in
    char_at (bits >> 18) ∷ char_at (bits >> 12) ∷ char_at (bits >> 6) ∷ char_at bits ∷ btoa rest
