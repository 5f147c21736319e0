-- ===== src/Live/Scan/Tests.antt =====
-- A page with a room id, and an object with a brace in a string.
use ttlive_cpp.Prelude.{ℕ, ◌≡◌, refl, List, [], ◌∷◌, ◌++◌, codes, arith}
use ttlive_cpp.Live.Json.{find_behind, strip}
use ttlive_cpp.Live.Scan.{room, scan_room_id, room_key, value, json_object_field, object_needle}
use ttlive_cpp.Live.Scan.RoomId.{scan_room_id-first}
use ttlive_cpp.Live.Scan.Objects.{Inside, Body, json_object_field-Inside}

abbrev behind_key : List ℕ
behind_key = (b'"' ∷ []) ++ (codes "42" ++ (b'"' ∷ codes ",x"))

scan_room_id-first_case : scan_room_id (codes "<a>{" ++ (room_key ++ behind_key)) ≡ room 42
unfolding find_behind strip value
scan_room_id-first_case =
    scan_room_id-first (codes "<a>{" ++ (room_key ++ behind_key)) behind_key (b'"' ∷ [])
      (codes "42") (b'"' ∷ codes ",x") refl
      (refl, ((refl, tt), ((refl, (refl, tt)), (refl, λ e. ground arith))))

-- {"a":"}","b":{}}
abbrev inner : List ℕ
inner =
    b'"' ∷ (codes "a" ++ (b'"' ∷ b':' ∷ b'"' ∷ (codes "}" ++ (b'"' ∷ b'{' ∷ ([] ++ (b'}' ∷ []))))))

inner-Inside : Inside inner
inner-Inside = Inside.string (Body.plain refl Body.nil) (
    Inside.plain refl
      (Inside.string (Body.plain refl Body.nil) (Inside.object Inside.nil Inside.nil)))

json_object_field-Inside_example :
    json_object_field
      (codes "{" ++ (object_needle (codes "icon") ++ (inner ++ (b'}' ∷ codes ",}"))))
      (codes "icon")
    ≡ b'{' ∷ (inner ++ (b'}' ∷ []))
unfolding find_behind strip
json_object_field-Inside_example =
    json_object_field-Inside
      (codes "{" ++ (object_needle (codes "icon") ++ (inner ++ (b'}' ∷ codes ",}")))) (codes "icon")
      inner (codes ",}") inner-Inside refl
