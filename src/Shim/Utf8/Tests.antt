-- ===== src/Shim/Utf8/Tests.antt =====
-- Encoding and decoding of concrete texts.
use ttlive_cpp.Prelude.{◌≡◌, refl, ◌∷◌, [], All, arith}
use ttlive_cpp.Shim.Utf8.{encode, decode, buffer, view, is_surrogate}
use ttlive_cpp.Shim.Utf8.Encode.{IsByte, encode-IsByte}
use ttlive_cpp.Shim.Utf8.RoundTrip.{WellFormed, nil, unit, pair, decode-encode, decode_view_whole}

-- "h€" and an emoji, as UTF-16 units.
mixed : WellFormed (104 ∷ 0x20ac ∷ 0xd83d ∷ 0xde00 ∷ [])
unfolding is_surrogate
mixed =
    unit refl (omega arith)
      (unit refl (omega arith) (pair (omega arith) (omega arith) (omega arith) (omega arith) nil))

two_units_encode : All IsByte (encode (104 ∷ 0x20ac ∷ []))
two_units_encode = encode-IsByte (104 ∷ 0x20ac ∷ []) (omega arith, (omega arith, tt))

decode-encode_example :
    decode (buffer (encode (104 ∷ 0x20ac ∷ 0xd83d ∷ 0xde00 ∷ [])))
    ≡ 104 ∷ 0x20ac ∷ 0xd83d ∷ 0xde00 ∷ []
decode-encode_example = decode-encode (104 ∷ 0x20ac ∷ 0xd83d ∷ 0xde00 ∷ []) mixed

decode_view_whole_case :
    decode (view (encode (104 ∷ 0x20ac ∷ 0xd83d ∷ 0xde00 ∷ [])) 1 3)
    ≡ 104 ∷ 0x20ac ∷ 0xd83d ∷ 0xde00 ∷ []
decode_view_whole_case = decode_view_whole (104 ∷ []) (0x20ac ∷ 0xd83d ∷ 0xde00 ∷ []) 1 3 mixed
