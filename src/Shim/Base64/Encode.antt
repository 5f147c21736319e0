-- ===== src/Shim/Base64/Encode.antt =====
-- What `btoa` writes, in plain arithmetic.
use ttlive_cpp.Prelude.{
  ℕ, ◌+◌, ◌*◌, ◌%◌, ◌<◌, ◌≡◌, refl, arith, true, false, some, ◌==◌, ◌&&◌, not, holds_below,
  holds_below-at, get_or,
}
use ttlive_cpp.Prelude.Bits.{or_field, and_mask}
use ttlive_cpp.Shim.Base64.{alphabet, index_from, index_of, char_at, join_units}

abbrev pub IsByte : ℕ → Type 0
IsByte b = b < 256

pub join_units-eq :
    (a b c : ℕ) → IsByte a → IsByte b → IsByte c → join_units a b c ≡ a * 65536 + b * 256 + c
unfolding join_units
join_units-eq a b c ha hb hc =
    ground (arith, or_field 16 a (b * 256) (omega arith), or_field 8 (a * 256 + b) c (omega arith))

-- The letter of a number below 64 is found again at its place, and is not `=`.
letter_table :
    holds_below
      (λ k. (index_of (some (get_or alphabet k 0)) == k) && not (get_or alphabet k 0 == b'='))
      64
    ≡ true
unfolding holds_below index_from
letter_table = refl

pub char_at_lem : (k : ℕ) → (index_of (some (char_at k)) ≡ k % 64) × ((char_at k == b'=') ≡ false)
unfolding char_at
char_at_lem k = ground (
  arith,
  and_mask 6 k,
  holds_below-at
      (λ k. (index_of (some (get_or alphabet k 0)) == k) && not (get_or alphabet k 0 == b'=')) 64
      letter_table (k % 64) (omega arith),
)
