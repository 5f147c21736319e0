-- ===== src/Live/Info/Tests.antt =====
-- Rooms that `fetch_room_info` reads.
use ttlive_cpp.Prelude.{◌≡◌, refl, [], ◌∷◌, false, true, codes, some}
use ttlive_cpp.Live.Event.{no_stream}
use ttlive_cpp.Live.Info.{parse_pairs, room_info, qualities_of, pairs_loop, raw_rest}
use ttlive_cpp.Live.Json.{
  json_string_field, find_behind, strip, json_unescape, unescape_loop, raw_string,
}
use ttlive_cpp.Js.Text.{behind, before}
use ttlive_cpp.Live.Scan.{json_object_field, object_loop}
use ttlive_cpp.Live.Info.Pairs.{object_text, parse_pairs-object_text}

parse_pairs-object_text_case :
    parse_pairs (object_text ((codes "HD", codes "a\"b\\") ∷ (codes "SD", codes "c:d") ∷ []))
    ≡ some ((codes "HD", codes "a\"b\\") ∷ (codes "SD", codes "c:d") ∷ [])
parse_pairs-object_text_case =
    parse_pairs-object_text ((codes "HD", codes "a\"b\\") ∷ (codes "SD", codes "c:d") ∷ [])
      ((refl, (refl, tt)), ((refl, (refl, tt)), tt))

error_page : room_info false (codes "x") ≡ some no_stream
unfolding room_info
error_page = refl

no_room : room_info true (codes "{}") ≡ some no_stream
unfolding room_info json_string_field find_behind json_object_field strip qualities_of no_stream
no_room = refl

one_quality :
    room_info true
      (codes "{\"stream_url\":{\"flv_pull_url\":{\"HD1\":\"u\"},\"hls_pull_url\":\"h\"}}")
    ≡ some (record {
      default_quality = [];
      qualities =
          record { quality = codes "HD1"; label = []; flv_url = codes "u"; hls_url = codes "h" }
          ∷ [];
      rtmp_pull_url = [];
    })
unfolding room_info json_string_field find_behind json_object_field strip qualities_of no_stream
    parse_pairs pairs_loop raw_rest object_loop json_unescape unescape_loop raw_string behind before
one_quality = refl
