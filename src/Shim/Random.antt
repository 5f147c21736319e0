-- ===== src/Shim/Random.antt =====
-- `fakeCrypto` of js/hybrid-fake-dom.js. `Math.random()` is a number k / 2 ^ 53 with k below 2 ^ 53;
-- a stream gives the k of each call. (`subtle` answers with empty buffers.)
pub mod Laws
mod Tests
use Prim.Native.Nat.{bit_and, bit_or}
use ttlive_cpp.Prelude.{
  ℕ, zero, suc, ◌+◌, ◌*◌, ◌/◌, ◌%◌, ◌^◌, ◌==◌, ◌<◌, Bool, true, false, ◌||◌, List, [], ◌∷◌,
  if◌then◌else◌, codes, get_or,
}

abbrev pub Stream : Type 0
Stream = ℕ → ℕ

-- What `Math.random` promises.
abbrev pub IsRandom : Stream → Type 0
IsRandom s = (i : ℕ) → s i < 2 ^ 53

-- `(Math.random() * 2 ^ bits) | 0` as a 32-bit pattern: the product is exact, and `|` drops its
-- fraction.
unfoldable pub draw : ℕ → ℕ → ℕ
draw bits k = k * 2 ^ bits / 2 ^ 53 % 2 ^ 32

-- The bits drawn for an element of a typed array, by its size in bytes.
abbrev pub bits_for : ℕ → ℕ
bits_for size = if size == 1 then 8 else if size == 2 then 16 else 32

-- `getRandomValues` on an integer array of `n` elements: the pattern that each element gets, from
-- the call `i` on.
unfoldable pub get_random_values : ℕ → ℕ → ℕ → Stream → List ℕ
get_random_values size zero i s = []
get_random_values size (suc n) i s = draw (bits_for size) (s i) ∷ get_random_values size n (suc i) s

-- `toString(16)` of a number below 16.
abbrev pub hex_digit : ℕ → ℕ
hex_digit v = get_or (codes "0123456789abcdef") v 0

abbrev pub template : List ℕ
template = codes "xxxxxxxx-xxxx-4xxx-yxxx-xxxxxxxxxxxx"

-- `(c === 'x' ? r : (r & 0x3) | 0x8).toString(16)`
unfoldable pub replacement : ℕ → ℕ → ℕ
replacement c k = let r = draw 4 k in hex_digit (if c == b'x' then r else bit_or (bit_and r 3) 8)

-- `replace(/[xy]/g, …)`, which calls `Math.random` once for each letter that it replaces.
unfoldable pub fill_template : List ℕ → ℕ → Stream → List ℕ
fill_template [] i s = []
fill_template (c ∷ t) i s =
    let filled = replacement c (s i) ∷ fill_template t (suc i) s in
    let copied = c ∷ fill_template t i s in if c == b'x' || c == b'y' then filled else copied

unfoldable pub random_uuid : Stream → List ℕ
random_uuid s = fill_template template 0 s
