-- ===== src/Live/Http/Tests.antt =====
-- A URL, and a list with two cookies.
use ttlive_cpp.Prelude.{◌≡◌, refl, [], ◌∷◌, ◌++◌, codes, some, none, arith}
use ttlive_cpp.Js.Text.{Text, same}
use ttlive_cpp.Live.Http.{parse_url, cookie, cookie_header, split_tabs}
use ttlive_cpp.Live.Http.Urls.{parse_url-parts}
use ttlive_cpp.Live.Http.Cookies.{nil, other, cookie_line, cookie-cookie_header}

parse_url-parts_case :
    parse_url (codes "wss://webcast-ws.us.tiktok.com/im?a=b")
    ≡ some (record {
      scheme = codes "wss";
      host = codes "webcast-ws.us.tiktok.com";
      port = codes "443";
      target = codes "/im?a=b";
    })
unfolding same
parse_url-parts_case =
    parse_url-parts (codes "wss") (codes "webcast-ws.us.tiktok.com") none (some (codes "im?a=b"))
      (ground arith) (ground arith) (ground arith) tt

-- The parts of a line, with the tabs between them.
abbrev line : Text → Text → Text
line name value = 9 ∷ 9 ∷ 9 ∷ 9 ∷ 9 ∷ (name ++ (9 ∷ value))

cookie-cookie_header_case :
    cookie (codes "tt-target-idc") (
      cookie_header (
        codes "short"
        ∷ line (codes "ttwid") (codes "1=x")
        ∷ line (codes "tt-target-idc") (codes "eu-ttp2")
        ∷ []))
    ≡ codes "eu-ttp2"
unfolding same split_tabs
cookie-cookie_header_case =
    cookie-cookie_header
      (codes "short"
        ∷ line (codes "ttwid") (codes "1=x")
        ∷ line (codes "tt-target-idc") (codes "eu-ttp2")
        ∷ [])
      ((codes "ttwid", codes "1=x") ∷ (codes "tt-target-idc", codes "eu-ttp2") ∷ [])
      (codes "tt-target-idc")
      (other refl (
        cookie_line {k = codes "ttwid"} {v = codes "1=x"} refl
          (cookie_line {k = codes "tt-target-idc"} {v = codes "eu-ttp2"} refl nil)))
      (ground arith)
