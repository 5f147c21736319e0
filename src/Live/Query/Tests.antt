-- ===== src/Live/Query/Tests.antt =====
-- A query with characters that need an escape.
use ttlive_cpp.Prelude.{◌≡◌, refl, [], ◌∷◌, codes, arith}
use ttlive_cpp.Live.Query.{
  encode_query, encode_from, encoded, encode_byte, is_unreserved, pair_text,
}
use ttlive_cpp.Live.Query.RoundTrip.{parse_query, parse_query-encode_query}

spaces_and_equals :
    encode_query ((codes "a b", codes "1=2") ∷ (codes "c", []) ∷ []) ≡ codes "a%20b=1%3D2&c="
unfolding encode_query encode_from encoded encode_byte is_unreserved pair_text
spaces_and_equals = refl

parse_query-encode_query_example :
    parse_query (encode_query ((codes "a b", codes "1=&") ∷ (codes "c", []) ∷ []))
    ≡ (codes "a b", codes "1=&") ∷ (codes "c", []) ∷ []
parse_query-encode_query_example =
    parse_query-encode_query (codes "a b", codes "1=&") ((codes "c", []) ∷ [])
      (
        (omega arith, (omega arith, (omega arith, tt))),
        (omega arith, (omega arith, (omega arith, tt))),
      )
      (((omega arith, tt), tt), tt)
