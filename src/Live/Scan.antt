-- ===== src/Live/Scan.antt =====
-- Scanners of src/client.cpp that look for an id and for an object: `scan_room_id`
-- and `json_object_field`.
pub mod RoomId
pub mod Objects
mod Tests
use ttlive_cpp.Prelude.{
  ℕ, zero, suc, ◌+◌, ◌-◌, ◌*◌, ◌^◌, List, [], ◌∷◌, ◌++◌, Bool, true, false, ◌||◌, ◌&&◌, not, leb,
  ltb, ◌==◌, if◌then◌else◌, codes, Option, none, some, length,
}
use ttlive_cpp.Js.Text.{Text}
use ttlive_cpp.Live.Json.{strip, find_behind}

abbrev pub is_digit : ℕ → Bool
is_digit c = leb b'0' c && leb c b'9'

-- The digits at the head of a text, and their value.
unfoldable pub take_digits : Text → Text
take_digits [] = []
take_digits (c ∷ s) = if is_digit c then c ∷ take_digits s else []

unfoldable pub value : ℕ → Text → ℕ
value acc [] = acc
value acc (c ∷ s) = value (acc * 10 + (c - b'0')) s

-- The quotes and spaces that are skipped before a number.
unfoldable pub skip_quotes : Text → Text
skip_quotes [] = []
skip_quotes (c ∷ s) = if c == b'"' || c == b' ' then skip_quotes s else c ∷ s

abbrev pub room_key : Text
room_key = b'"' ∷ (codes "roomId" ++ (b'"' ∷ b':' ∷ []))

-- What a scan comes to: an id, 0 for none, or the exception of `std::stoll` beyond 2 ^ 63 - 1.
pub data Scanned : Type 0 where
  room : ℕ → Scanned
  out_of_range : Scanned

-- One occurrence of the key, with the text behind it; `later` is the scan for the next one.
abbrev pub room_at : Text → Scanned → Scanned
room_at digits later = elim digits [
  | [] ↦ later
  | c ∷ ds ↦
      let rid = value 0 (c ∷ ds) in
      if leb (2 ^ 63) rid then out_of_range else if ltb 0 rid then room rid else later
]

-- One round: what `find` gave, with the later rounds as `later`.
abbrev pub scanned_from : (Text → Scanned) → Option Text → Scanned
scanned_from later none = room 0
scanned_from later (some t) = room_at (take_digits (skip_quotes t)) (later t)

-- The loop over the occurrences; each takes at least one byte, so one more than the length is enough.
unfoldable pub scan_loop : ℕ → Text → Scanned
scan_loop zero s = room 0
scan_loop (suc left) s = scanned_from (scan_loop left) (find_behind room_key s)

unfoldable pub scan_room_id : Text → Scanned
scan_room_id body = scan_loop (suc (length body)) body

-- The loop of `json_object_field` from the opening brace on: the text up to the brace that closes
-- it, with the depth and whether a string is being read. `none` is a text that ends before.
abbrev pub cons_to : ℕ → Option Text → Option Text
cons_to c none = none
cons_to c (some s) = some (c ∷ s)

unfoldable pub object_loop : ℕ → Bool → Text → Option Text
object_loop depth in_str [] = none
object_loop depth true (c ∷ []) = none
object_loop depth true (c ∷ d ∷ s) =
    let skipped = cons_to c (cons_to d (object_loop depth true s)) in
    let ended = cons_to c (object_loop depth false (d ∷ s)) in
    let inside = cons_to c (object_loop depth true (d ∷ s)) in
    if c == b'\\' then skipped else if c == b'"' then ended else inside
object_loop depth false (c ∷ s) =
    let string = cons_to c (object_loop depth true s) in
    let deeper = cons_to c (object_loop (suc depth) false s) in
    let higher = cons_to c (object_loop (depth - 1) false s) in
    let beside = cons_to c (object_loop depth false s) in
    if c == b'"'
    then string
    else if c == b'{'
    then deeper
    else if c == b'}'
    then (if depth == 1 then some (c ∷ []) else higher)
    else beside

-- `"key":{`, of which the last character is read again.
abbrev pub object_needle : Text → Text
object_needle key = b'"' ∷ (key ++ (b'"' ∷ b':' ∷ b'{' ∷ []))

abbrev or_nothing : Option Text → Text
or_nothing none = []
or_nothing (some s) = s

abbrev from_brace : Option Text → Text
from_brace none = []
from_brace (some s) = or_nothing (object_loop 0 false (b'{' ∷ s))

unfoldable pub json_object_field : Text → Text → Text
json_object_field json key = from_brace (find_behind (object_needle key) json)
