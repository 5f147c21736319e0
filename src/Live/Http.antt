-- ===== src/Live/Http.antt =====
-- The texts that src/http_client.cpp takes apart: `parse_url`, `header_cb`, `cookie_header` and
-- `cookie`. The lines of libcurl's cookie list and the header lines are arguments.
pub mod Cookies
pub mod Urls
mod Tests
use ttlive_cpp.Prelude.{
  ℕ, zero, suc, ◌+◌, List, [], ◌∷◌, ◌++◌, Bool, true, false, ◌||◌, ◌&&◌, not, leb, ◌==◌,
  if◌then◌else◌, codes, Option, none, some, length, map,
}
use ttlive_cpp.Js.Text.{Text, same, before, behind}
use ttlive_cpp.Live.Event.{is_empty}
use ttlive_cpp.Live.Json.{find_behind, strip}

-- `ParsedUrl`
pub record ParsedUrl : Type 0 where
  pub scheme : Text
  pub host : Text
  pub port : Text
  pub target : Text

abbrev pub unless_found : Option Text → Text → Text
unless_found (some rest) later = []
unless_found none later = later

-- The text before the first occurrence of a needle, where there is one.
unfoldable pub before_text : Text → Text → Text
before_text needle [] = []
before_text needle (x ∷ s) = unless_found (strip needle (x ∷ s)) (x ∷ before_text needle s)

abbrev pub default_port : Text → Text
default_port scheme =
    if same scheme (codes "http") || same scheme (codes "ws") then codes "80" else codes "443"

abbrev pub with_slash : Option Text → Text
with_slash none = b'/' ∷ []
with_slash (some rest) = b'/' ∷ rest

abbrev pub split_port : Text → Text → Text → Option Text → ParsedUrl
split_port scheme authority target none = record {
  scheme = scheme;
  host = authority;
  port = default_port scheme;
  target = target;
}
split_port scheme authority target (some port) = record {
  scheme = scheme;
  host = before b':' authority;
  port = port;
  target = target;
}

abbrev pub parse_rest : Text → Option Text → Option ParsedUrl
parse_rest scheme none = none
parse_rest scheme (some rest) =
    let authority = before b'/' rest in
    some (split_port scheme authority (with_slash (behind b'/' rest)) (behind b':' authority))

-- `none` is the exception "bad url".
unfoldable pub parse_url : Text → Option ParsedUrl
parse_url url = parse_rest (before_text (codes "://") url) (find_behind (codes "://") url)

-- `to_lower` on the bytes of a header's name, and the two trims of `header_cb`.
abbrev pub lower_byte : ℕ → ℕ
lower_byte c = if leb b'A' c && leb c b'Z' then c + 32 else c

unfoldable pub trim_front : Text → Text
trim_front [] = []
trim_front (c ∷ s) = if c == b' ' || c == 9 then trim_front s else c ∷ s

unfoldable pub trim_back : Text → Text
trim_back [] = []
trim_back (c ∷ s) = elim (trim_back s) [
  | [] ↦ if c == 13 || c == 10 || c == b' ' || c == 9 then [] else c ∷ []
  | d ∷ t ↦ c ∷ d ∷ t
]

-- What a header line adds to the map: the entry, or nothing.
abbrev pub named : Text → Text → Option (Text × Text)
named [] value = none
named (c ∷ name) value = some (c ∷ name, value)

abbrev pub header_entry : Text → Option Text → Option (Text × Text)
header_entry name none = none
header_entry name (some value) =
    named (trim_back (trim_front (map lower_byte name))) (trim_back (trim_front value))

unfoldable pub header_cb : Text → Option (Text × Text)
header_cb line = header_entry (before b':' line) (behind b':' line)

-- The parts of a line between tabs.
abbrev pub push_char : ℕ → List Text → List Text
push_char c [] = (c ∷ []) ∷ []
push_char c (p ∷ ps) = (c ∷ p) ∷ ps

unfoldable pub split_tabs : Text → List Text
split_tabs [] = [] ∷ []
split_tabs (c ∷ s) = if c == 9 then [] ∷ split_tabs s else push_char c (split_tabs s)

-- `parts[5] + "=" + parts[6]`, of a line with at least seven parts.
abbrev pub pair_of : List Text → Option Text
pair_of (domain ∷ flag ∷ path ∷ secure ∷ expiry ∷ name ∷ value ∷ rest) =
    some (name ++ (b'=' ∷ value))
pair_of _ = none

abbrev pub join_pair : Text → Option Text → Text
join_pair out none = out
join_pair out (some pair) = if is_empty out then out ++ pair else (out ++ codes "; ") ++ pair

-- The loop of `cookie_header` with what it has put together so far.
unfoldable pub header_loop : Text → List Text → Text
header_loop out [] = out
header_loop out (line ∷ lines) = header_loop (join_pair out (pair_of (split_tabs line))) lines

unfoldable pub cookie_header : List Text → Text
cookie_header lines = header_loop [] lines

unfoldable pub skip_blanks : Text → Text
skip_blanks [] = []
skip_blanks (c ∷ s) = if c == b' ' then skip_blanks s else c ∷ s

-- The value in one pair, if it has the name.
abbrev pub value_in : Text → Text → Option Text → Option Text
value_in name pair none = none
value_in name pair (some value) = if same (before b'=' pair) name then some value else none

abbrev pub or_later : Option Text → Text → Text
or_later none later = later
or_later (some value) later = value

abbrev pub behind_semi : (Text → Text) → Option Text → Text
behind_semi later none = []
behind_semi later (some rest) = later rest

-- The loop of `cookie`; each round takes at least one byte.
unfoldable pub cookie_loop : ℕ → Text → Text → Text
cookie_loop zero name s = []
cookie_loop (suc left) name [] = []
cookie_loop (suc left) name (c ∷ s) =
    let pair = skip_blanks (before b';' (c ∷ s)) in
    or_later (value_in name pair (behind b'=' pair))
      (behind_semi (cookie_loop left name) (behind b';' (c ∷ s)))

unfoldable pub cookie : Text → Text → Text
cookie name all = cookie_loop (suc (length all)) name all
