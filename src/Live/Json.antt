-- ===== src/Live/Json.antt =====
-- The JSON scanners of src/client.cpp: `json_unescape`, `json_string_field` and `scan_room_id`. A
-- text is a list of bytes; `none` is an exception of `std::stoi` or `std::stoll`.
pub mod Strings
mod Tests
use ttlive_cpp.Prelude.{
  ℕ, zero, suc, ◌+◌, ◌-◌, ◌*◌, ◌^◌, ◌%◌, List, [], ◌∷◌, ◌++◌, Bool, true, false, ◌||◌, ◌&&◌, not,
  leb, ltb, ◌==◌, if◌then◌else◌, codes, Option, none, some, length,
}
use ttlive_cpp.Js.Text.{Text}

-- The text behind the given prefix, if it is one.
unfoldable pub strip : Text → Text → Option Text
strip [] s = some s
strip (c ∷ p) [] = none
strip (c ∷ p) (x ∷ s) = if c == x then strip p s else none

abbrev or_else : Option Text → Option Text → Option Text
or_else (some s) other = some s
or_else none other = other

-- `find(needle)`, given as the text behind the first occurrence.
unfoldable pub find_behind : Text → Text → Option Text
find_behind needle [] = strip needle []
find_behind needle (x ∷ s) = or_else (strip needle (x ∷ s)) (find_behind needle s)

abbrev pub hex_digit : ℕ → Option ℕ
hex_digit c =
    if leb b'0' c && leb c b'9'
    then some (c - b'0')
    else if leb b'a' c && leb c b'f'
    then some (c - 87)
    else if leb b'A' c && leb c b'F'
    then some (c - 55)
    else none

-- `std::stoi(s, nullptr, 16)`: white space, a sign, `0x`, and then as many digits as there are, at
-- least one. The text has four bytes, so nothing overflows. The result is the byte that
-- `static_cast<char>` makes of a value below 0x80, or nothing for a larger value.
unfoldable pub digits_value : Text → ℕ → Bool → Option ℕ
digits_value [] acc seen = if seen then some acc else none
digits_value (c ∷ s) acc seen = elim (hex_digit c) [
  | none ↦ if seen then some acc else none
  | some v ↦ digits_value s (acc * 16 + v) true
]

abbrev is_digit : Option ℕ → Bool
is_digit none = false
is_digit (some v) = true

abbrev pub skip_prefix : Text → Text
skip_prefix (z ∷ x ∷ d ∷ s) =
    if z == b'0' && (x == b'x' || x == b'X') && is_digit (hex_digit d) then d ∷ s else z ∷ x ∷ d ∷ s
skip_prefix s = s

unfoldable pub skip_space : Text → Text
skip_space [] = []
skip_space (c ∷ s) = if c == 32 || leb 9 c && leb c 13 then skip_space s else c ∷ s

-- A code below 0x80 as a byte, a negative one by its last eight bits.
pub data Code : Type 0 where
  ascii : ℕ → Code
  beyond : Code

abbrev pub positive : ℕ → Code
positive v = if ltb v 0x80 then ascii v else beyond

abbrev pub negative : ℕ → Code
negative v = ascii ((2 ^ 32 - v) % 256)

abbrev pub map_code : (ℕ → Code) → Option ℕ → Option Code
map_code f none = none
map_code f (some v) = some (f v)

abbrev pub signed_code : Text → Option Code
signed_code [] = none
signed_code (c ∷ s) =
    if c == b'-'
    then map_code negative (digits_value (skip_prefix s) 0 false)
    else if c == b'+'
    then map_code positive (digits_value (skip_prefix s) 0 false)
    else map_code positive (digits_value (skip_prefix (c ∷ s)) 0 false)

unfoldable pub code_of : Text → Option Code
code_of s = signed_code (skip_space s)

-- What the `switch` appends for the character behind a backslash.
unfoldable pub escaped_char : ℕ → ℕ
escaped_char n = if n == b'n' then 10 else if n == b't' then 9 else if n == b'r' then 13 else n

abbrev pub prepend : ℕ → Option Text → Option Text
prepend c none = none
prepend c (some s) = some (c ∷ s)

-- What comes of an escape `\u` with the given code, before the rest of the text.
abbrev pub coded : Option Code → Option Text → Option Text
coded none rest = none
coded (some (ascii c)) rest = prepend c rest
coded (some beyond) rest = rest

-- `\u` with four characters to read; with fewer it is an escape like the others, which is `short`.
abbrev pub unicode_escape : (Text → Option Text) → Option Text → Text → Option Text
unicode_escape later short (a ∷ b ∷ d ∷ e ∷ rest) =
    coded (code_of (a ∷ b ∷ d ∷ e ∷ [])) (later rest)
unicode_escape later short _ = short

-- The loop of `json_unescape`; each round takes at least one byte, so `left` may be the length.
unfoldable pub unescape_loop : ℕ → Text → Option Text
unescape_loop zero s = some []
unescape_loop (suc left) [] = some []
unescape_loop (suc left) (c ∷ []) = prepend c (unescape_loop left [])
unescape_loop (suc left) (c ∷ n ∷ s) =
    let plain = prepend c (unescape_loop left (n ∷ s)) in
    let simple = prepend (escaped_char n) (unescape_loop left s) in
    let unicode = unicode_escape (unescape_loop left) simple s in
    if c == b'\\' then (if n == b'u' then unicode else simple) else plain

unfoldable pub json_unescape : Text → Option Text
json_unescape s = unescape_loop (length s) s

-- The raw text of a string, up to the quote that ends it.
unfoldable pub raw_string : Text → Text
raw_string [] = []
raw_string (c ∷ []) = if c == b'"' then [] else c ∷ []
raw_string (c ∷ d ∷ s) =
    let pair = c ∷ d ∷ raw_string s in
    let one = c ∷ raw_string (d ∷ s) in if c == b'\\' then pair else if c == b'"' then [] else one

-- `"key":"`
abbrev pub string_needle : Text → Text
string_needle key = b'"' ∷ (key ++ (b'"' ∷ b':' ∷ b'"' ∷ []))

abbrev unescaped : Option Text → Option Text
unescaped none = some []
unescaped (some s) = json_unescape (raw_string s)

unfoldable pub json_string_field : Text → Text → Option Text
json_string_field json key = unescaped (find_behind (string_needle key) json)
