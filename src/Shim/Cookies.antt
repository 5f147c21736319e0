-- ===== src/Shim/Cookies.antt =====
-- The cookie jar of js/hybrid-fake-dom.js: `__setCookie`, `__getCookies` and the accessor
-- `document.cookie` that calls them.
pub mod Laws
mod Tests
use ttlive_cpp.Prelude.{
  ℕ, List, [], ◌∷◌, ◌++◌, Option, none, some, if◌then◌else◌, map, codes, Bool, true, false,
}
use ttlive_cpp.Js.Text.{Text, before, behind, trim, join}
use ttlive_cpp.Js.Object.{Dict, own, assign, own_keys}

abbrev pub Jar : Type 0
Jar = Dict Text

-- `__cookieJar[k]` for an own key `k`.
abbrev value_or_empty : Option Text → Text
value_or_empty none = []
value_or_empty (some v) = v

-- The text of one cookie, `k + '=' + __cookieJar[k]`.
pub cookie_text : Jar → Text → Text
cookie_text jar k = k ++ (b'=' ∷ value_or_empty (own k jar))

-- `__getCookies`
unfoldable pub get_cookies : Jar → Text
unfolding cookie_text
get_cookies jar = join (codes "; ") (map (cookie_text jar) (own_keys (map (λ p. p.0) jar)))

-- `if (key) __cookieJar[key] = val`
pub store : Text → Text → Jar → Jar
store [] val jar = jar
store (c ∷ key) val jar = assign (c ∷ key) val jar

-- The part of `__setCookie` behind `split(';')[0]`: without a `=` nothing is stored.
pub set_pair : Text → Jar → Jar
unfolding store
set_pair pair jar = elim (behind b'=' pair) [
  | none ↦ jar
  | some val ↦ store (trim (before b'=' pair)) (trim val) jar
]

-- `__setCookie` on a text. `document.cookie = str` calls it.
unfoldable pub set_cookie : Text → Jar → Jar
set_cookie [] jar = jar
set_cookie (c ∷ str) jar = set_pair (before b';' (c ∷ str)) jar

-- The jar after the two calls that seed it.
unfoldable pub seeded : Jar
unfolding set_cookie set_pair before
seeded =
    set_cookie (codes "tiktok_webapp_theme=light")
      (set_cookie (codes "tiktok_webapp_theme_source=auto") [])
