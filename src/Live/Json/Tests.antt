-- ===== src/Live/Json/Tests.antt =====
-- A gift's description, and a name with an accent.
use ttlive_cpp.Prelude.{ℕ, ◌≡◌, refl, List, [], ◌∷◌, ◌++◌, codes, some}
use ttlive_cpp.Live.Json.{
  find_behind, strip, string_needle, json_string_field, json_unescape, code_of, skip_space,
  digits_value,
}
use ttlive_cpp.Live.Json.Strings.{escape, json_string_field-escape, json_unescape-beyond}

abbrev said : List ℕ
said = codes "say " ++ (b'"' ∷ codes "hi" ++ (b'"' ∷ []))

json_string_field-escape_example :
    json_string_field
      (codes "{" ++ (string_needle (codes "name") ++ (escape said ++ (b'"' ∷ codes "}"))))
      (codes "name")
    ≡ some said
unfolding find_behind strip
json_string_field-escape_example =
    json_string_field-escape
      (codes "{" ++ (string_needle (codes "name") ++ (escape said ++ (b'"' ∷ codes "}"))))
      (codes "name") said (codes "}") refl

json_unescape-beyond_case :
    json_unescape (codes "caf" ++ (b'\\' ∷ b'u' ∷ b'0' ∷ b'0' ∷ b'e' ∷ b'9' ∷ codes " noir"))
    ≡ some (codes "caf noir")
unfolding code_of skip_space digits_value
json_unescape-beyond_case =
    json_unescape-beyond (codes "caf") (codes " noir") b'0' b'0' b'e' b'9' refl
