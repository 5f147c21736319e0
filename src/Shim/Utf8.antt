-- ===== src/Shim/Utf8.antt =====
-- `FakeTextEncoder` and `FakeTextDecoder` of js/hybrid-fake-dom.js. Text is a list of UTF-16 code
-- units, a `Uint8Array` its list of bytes.
pub mod Encode
pub mod RoundTrip
mod Tests
use Prim.Native.Nat.{bit_and, bit_or}
use ttlive_cpp.Prelude.{
  ℕ, zero, suc, ◌+◌, ◌-◌, ◌%◌, ◌^◌, List, [], ◌∷◌, ◌++◌, ltb, Bool, true, false, if◌then◌else◌,
  length,
}
use ttlive_cpp.Prelude.Bits.{◌<<◌, ◌>>◌}

-- `0x80 | (v & 0x3F)`
unfoldable pub continuation : ℕ → ℕ
continuation v = bit_or 0x80 (bit_and v 0x3f)

unfoldable pub two_bytes : ℕ → List ℕ
two_bytes c = bit_or 0xc0 (c >> 6) ∷ continuation c ∷ []

unfoldable pub three_bytes : ℕ → List ℕ
three_bytes c = bit_or 0xe0 (c >> 12) ∷ continuation (c >> 6) ∷ continuation c ∷ []

unfoldable pub four_bytes : ℕ → List ℕ
four_bytes c =
    bit_or 0xf0 (c >> 18) ∷ continuation (c >> 12) ∷ continuation (c >> 6) ∷ continuation c ∷ []

-- The bytes of a unit that is no surrogate.
unfoldable pub unit_bytes : ℕ → List ℕ
unit_bytes c = if ltb c 0x80 then c ∷ [] else if ltb c 0x800 then two_bytes c else three_bytes c

unfoldable pub is_surrogate : ℕ → Bool
is_surrogate c = if ltb c 0xd800 then false else ltb c 0xe000

-- `0x10000 + (((c & 0x3FF) << 10) | (next & 0x3FF))`
unfoldable pub pair_code : ℕ → ℕ → ℕ
pair_code c next = 0x10000 + bit_or (bit_and c 0x3ff << 10) (bit_and next 0x3ff)

-- The loop of `encode`. A surrogate is joined with the unit behind it, whichever that is; past the
-- end `charCodeAt` is NaN, which `&` takes for 0.
unfoldable pub encode : List ℕ → List ℕ
encode [] = []
encode (c ∷ []) = if is_surrogate c then four_bytes (pair_code c 0) else unit_bytes c
encode (c ∷ d ∷ s) =
    let joined = four_bytes (pair_code c d) ++ encode s in
    let single = unit_bytes c ++ encode (d ∷ s) in if is_surrogate c then joined else single

-- `bytes[i++]` as an operand of `&`: past the end it is `undefined`, taken for 0.
abbrev pub next_byte : List ℕ → ℕ
next_byte [] = 0
next_byte (b ∷ s) = b

abbrev pub advance : List ℕ → List ℕ
advance [] = []
advance (b ∷ s) = s

unfoldable pub from_two : ℕ → ℕ → ℕ
from_two b c = bit_or (bit_and b 0x1f << 6) (bit_and c 0x3f)

unfoldable pub from_three : ℕ → ℕ → ℕ → ℕ
from_three b c d = bit_or (bit_or (bit_and b 0x0f << 12) (bit_and c 0x3f << 6)) (bit_and d 0x3f)

unfoldable pub from_four : ℕ → ℕ → ℕ → ℕ → ℕ
from_four b c d e =
    bit_or (bit_or (bit_or (bit_and b 0x07 << 18) (bit_and c 0x3f << 12)) (bit_and d 0x3f << 6))
      (bit_and e 0x3f)

-- `cp -= 0x10000`, which may go below 0, and the two units of what is left. `fromCharCode` keeps
-- 16 bits.
unfoldable pub split_code : ℕ → List ℕ
split_code code =
    let cp = (code + 2 ^ 32 - 0x10000) % 2 ^ 32 in
    ((0xd800 + (cp >> 10)) % 2 ^ 16) ∷ ((0xdc00 + bit_and cp 0x3ff) % 2 ^ 16) ∷ []

-- The loop of `decode`; a round takes one to four bytes, so that the number of bytes is fuel
-- enough.
unfoldable pub decode_loop : ℕ → List ℕ → List ℕ
decode_loop zero bytes = []
decode_loop (suc fuel) [] = []
decode_loop (suc fuel) (b ∷ s) =
    let one = b ∷ decode_loop fuel s in
    let two = from_two b (next_byte s) ∷ decode_loop fuel (advance s) in
    let three =
      from_three b (next_byte s) (next_byte (advance s)) ∷ decode_loop fuel (advance (advance s)) in
    let four =
      split_code
        (from_four b (next_byte s) (next_byte (advance s)) (next_byte (advance (advance s))))
      ++ decode_loop fuel (advance (advance (advance s))) in
    if ltb b 0x80 then one else if ltb b 0xe0 then two else if ltb b 0xf0 then three else four

unfoldable pub decode_bytes : List ℕ → List ℕ
decode_bytes bytes = decode_loop (length bytes) bytes

-- What `decode` is given: nothing, an `ArrayBuffer`, or a view of a buffer from an offset on.
pub data Source : Type 0 where
  absent : Source
  buffer : List ℕ → Source
  view : (bytes : List ℕ) (offset size : ℕ) → Source

-- `new Uint8Array(buf.buffer || buf)`: of a view its whole buffer.
unfoldable pub decode : Source → List ℕ
decode absent = []
decode (buffer bytes) = decode_bytes bytes
decode (view bytes offset size) = decode_bytes bytes
