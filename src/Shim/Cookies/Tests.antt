-- ===== src/Shim/Cookies/Tests.antt =====
-- Concrete runs of the cookie jar.
use ttlive_cpp.Prelude.{◌≡◌, refl, ◌∷◌, [], codes, ◌++◌, some, inr, arith}
use ttlive_cpp.Js.Text.{before, behind, trim, trim_start, trim_end, is_space, join, same}
use ttlive_cpp.Js.Object.{own, put, assign, own_keys}
use ttlive_cpp.Shim.Cookies.Laws.{set_cookie_first, set_cookie_lem}
use ttlive_cpp.Shim.Cookies.{get_cookies, set_cookie, set_pair, store, seeded}

jar_tools : Unit {0}
unfolding set_cookie set_pair store before behind trim trim_start trim_end is_space assign put same
    get_cookies own own_keys join seeded
jar_tools = tt

seeded_header :
    get_cookies seeded ≡ codes "tiktok_webapp_theme_source=auto; tiktok_webapp_theme=light"
unfolding jar_tools
seeded_header = refl

index_keys_first :
    get_cookies (
      set_cookie (codes "7=b") (set_cookie (codes "10=c") (set_cookie (codes " x = a ;path=/") [])))
    ≡ codes "7=b; 10=c; x=a"
unfolding jar_tools
index_keys_first = refl

set_cookie_first_case :
    set_cookie (codes "msToken=abc" ++ (b';' ∷ codes " ttwid=1")) seeded
    ≡ set_cookie (codes "msToken=abc") seeded
set_cookie_first_case =
    set_cookie_first (codes "msToken=abc") (codes " ttwid=1") seeded (ground arith)

set_cookie_lem_case :
    own
      (codes "ttwid")
      (set_cookie ((codes " ttwid" ++ (b'=' ∷ codes "1=2 ")) ++ codes "; path=/") seeded)
    ≡ some (codes "1=2")
unfolding same trim trim_start trim_end is_space
set_cookie_lem_case =
    set_cookie_lem (codes " ttwid") (codes "1=2 ") (codes "; path=/") (codes "ttwid") seeded
      (ground arith) (ground arith) (ground arith) (inr (codes " path=/", refl))
