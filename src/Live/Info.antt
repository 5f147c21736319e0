-- ===== src/Live/Info.antt =====
-- The reading of the room's streams in src/client.cpp: the local function `parse_pairs` of
-- `fetch_room_info`, and what `fetch_room_info` makes of a body. `none` is an exception.
pub mod Pairs
mod Tests
use ttlive_cpp.Prelude.{
  ℕ, zero, suc, List, [], ◌∷◌, ◌++◌, Bool, true, false, not, ◌&&◌, ◌==◌, if◌then◌else◌, codes,
  Option, none, some, length,
}
use ttlive_cpp.Js.Text.{Text, before, behind}
use ttlive_cpp.Live.Event.{StreamQuality, StreamInfo, is_empty, no_stream}
use ttlive_cpp.Live.Json.{json_unescape, raw_string, json_string_field}
use ttlive_cpp.Live.Scan.{json_object_field}

abbrev pub Pairs : Type 0
Pairs = Option (List (Text × Text))

-- A `find` of the loop: where there is nothing, the loop ends.
abbrev pub then_found : Option Text → (Text → Pairs) → Pairs
then_found none next = some []
then_found (some s) next = next s

-- The text behind the quote that ends a string.
unfoldable pub raw_rest : Text → Text
raw_rest [] = []
raw_rest (c ∷ []) = []
raw_rest (c ∷ d ∷ s) =
    let pair = raw_rest s in
    let one = raw_rest (d ∷ s) in if c == b'\\' then pair else if c == b'"' then d ∷ s else one

abbrev pub add_pair : Text → Option Text → Pairs → Pairs
add_pair key none later = none
add_pair key (some value) none = none
add_pair key (some value) (some pairs) = some ((key, value) ∷ pairs)

-- A pair whose value begins behind `v0`; `later` goes on behind it.
abbrev pub value_at : (Text → Pairs) → Text → Text → Pairs
value_at later key s = add_pair key (json_unescape (raw_string s)) (later (raw_rest s))

-- The round of the loop from `k0` on.
abbrev pub key_at : (Text → Pairs) → Text → Pairs
key_at later a = then_found (behind b'"' a) λ b.
    then_found (behind b':' b) λ c. then_found (behind b'"' c) λ d. value_at later (before b'"' a) d

-- Each round takes at least one byte, so `left` may be the length.
unfoldable pub pairs_loop : ℕ → Text → Pairs
pairs_loop zero s = some []
pairs_loop (suc left) s = then_found (behind b'"' s) (key_at (pairs_loop left))

unfoldable pub parse_pairs : Text → Pairs
parse_pairs obj = pairs_loop (length obj) obj

-- The qualities, with the labels that `resolution_name` gives them.
abbrev pub add_quality :
    Text → Text → Option Text → Option (List StreamQuality) → Option (List StreamQuality)
add_quality key url none rest = none
add_quality key url (some label) none = none
add_quality key url (some label) (some rest) =
    some (record { quality = key; label = label; flv_url = url; hls_url = [] } ∷ rest)

unfoldable pub qualities_of : Text → List (Text × Text) → Option (List StreamQuality)
qualities_of names [] = some []
qualities_of names ((key, url) ∷ pairs) =
    add_quality key url (json_string_field names key) (qualities_of names pairs)

-- A single quality gets the flat HLS address, if there is one.
abbrev pub with_hls : Text → List StreamQuality → List StreamQuality
with_hls hls (q ∷ []) = (if not (is_empty hls) then record q { hls_url = hls } else q) ∷ []
with_hls hls qs = qs

abbrev pub bound : {A B : Type 0} → Option A → (A → Option B) → Option B
bound none f = none
bound (some a) f = f a

-- `fetch_room_info` on a response: with another status, or an empty body, nothing is read.
unfoldable pub room_info : Bool → Text → Option StreamInfo
room_info ok body =
    let inner = json_object_field body (codes "stream_url") in
    let scope = if is_empty inner then body else inner in
    let flv = json_object_field scope (codes "flv_pull_url") in
    if ok && not (is_empty body)
    then (bound (json_string_field scope (codes "default_resolution")) λ quality.
        bound (json_string_field scope (codes "hls_pull_url")) λ hls.
          bound (if is_empty flv then some [] else parse_pairs flv) λ pairs.
            bound (qualities_of (json_object_field scope (codes "resolution_name")) pairs) λ qs.
              bound (json_string_field scope (codes "rtmp_pull_url")) λ rtmp. some (record {
                default_quality = quality;
                qualities = with_hls hls qs;
                rtmp_pull_url = rtmp;
              }))
    else some no_stream
