-- ===== src/Live/Query.antt =====
-- The query strings of src/web_defaults.cpp: `append_encoded` and `encode_query` over a list of
-- parameters, whose texts are lists of bytes.
pub mod RoundTrip
pub mod Defaults
mod Tests
use Prim.Native.Nat.{bit_and}
use ttlive_cpp.Prelude.{
  ℕ, List, [], ◌∷◌, ◌++◌, Bool, true, false, ◌||◌, ◌&&◌, not, leb, ◌==◌, if◌then◌else◌, codes,
  get_or,
}
use ttlive_cpp.Prelude.Bits.{◌>>◌}
use ttlive_cpp.Js.Text.{Text}

-- `hex[v]`
abbrev pub hex : ℕ → ℕ
hex v = get_or (codes "0123456789ABCDEF") v 0

unfoldable pub is_unreserved : ℕ → Bool
is_unreserved c =
    leb b'A' c && leb c b'Z'
    || leb b'a' c && leb c b'z'
    || leb b'0' c && leb c b'9'
    || c == b'-'
    || c == b'_'
    || c == b'.'
    || c == b'~'

-- What is appended for one byte.
unfoldable pub encode_byte : ℕ → Text
encode_byte c = if is_unreserved c then c ∷ [] else b'%' ∷ hex (c >> 4) ∷ hex (bit_and c 0x0F) ∷ []

-- What `append_encoded` appends.
unfoldable pub encoded : Text → Text
encoded [] = []
encoded (c ∷ s) = encode_byte c ++ encoded s

unfoldable pub pair_text : Text × Text → Text
pair_text (k, v) = encoded k ++ (b'=' ∷ encoded v)

-- The loop of `encode_query`, with `first`.
unfoldable pub encode_from : Bool → List (Text × Text) → Text
encode_from first [] = []
encode_from first (kv ∷ params) =
    (if not first then b'&' ∷ pair_text kv else pair_text kv) ++ encode_from false params

unfoldable pub encode_query : List (Text × Text) → Text
encode_query params = encode_from true params
