-- ===== src/Live/Http/Urls.antt =====
-- `parse_url` takes a URL apart that was put together from its parts.
use mathlib.Core.List.{append-nil}
use ttlive_cpp.Prelude.{
  ℕ, ◌≡◌, refl, ap, [], ◌∷◌, ◌++◌, false, ◌==◌, ==_iff, codes, Option, none, some, All-append,
  arith,
}
use ttlive_cpp.Js.Text.{
  Text, Lacks, before, behind, before-append, before_all, behind-append, behind_none,
}
use ttlive_cpp.Live.Json.{find_behind, strip}
use ttlive_cpp.Live.Http.{
  before_text, unless_found, default_port, with_slash, split_port, parse_url,
}

abbrev mark : Text
mark = codes "://"

strip-mark : (r : Text) → strip mark (mark ++ r) ≡ some r
unfolding strip
strip-mark r = refl

strip-other : (c : ℕ) (s : Text) → (c == b':') ≡ false → strip mark (c ∷ s) ≡ none
unfolding strip
strip-other c s h = ground (arith, ==_iff c b':')

before-mark : (s r : Text) → Lacks b':' s → before_text mark (s ++ (mark ++ r)) ≡ s
unfolding before_text
before-mark [] r h =
    ap (λ o. unless_found o (b':' ∷ before_text mark (b'/' ∷ b'/' ∷ r))) (strip-mark r)
before-mark (c ∷ s) r h =
    rw (strip-other c (s ++ (mark ++ r)) h.0) (ap (λ t. c ∷ t) (before-mark s r h.1))

find-mark : (s r : Text) → Lacks b':' s → find_behind mark (s ++ (mark ++ r)) ≡ some r
unfolding find_behind
find-mark [] r h = rw (strip-mark r)
find-mark (c ∷ s) r h = rw (strip-other c (s ++ (mark ++ r)) h.0) (find-mark s r h.1)

abbrev pub port_text : Option Text → Text
port_text none = []
port_text (some port) = b':' ∷ port

abbrev pub path_text : Option Text → Text
path_text none = []
path_text (some path) = b'/' ∷ path

abbrev pub port_or_default : Text → Option Text → Text
port_or_default scheme none = default_port scheme
port_or_default scheme (some port) = port

abbrev pub NoSlash : Option Text → Type 0
NoSlash none = Unit {0}
NoSlash (some port) = Lacks b'/' port

-- The authority and what is behind it are cut at the first slash.
cut-authority :
    (a : Text) (path : Option Text)
    → Lacks b'/' a
    → (before b'/' (a ++ path_text path) ≡ a) × (behind b'/' (a ++ path_text path) ≡ path)
cut-authority a none h = rw (append-nil a) (before_all b'/' a h, behind_none b'/' a h)
cut-authority a (some path) h = (before-append b'/' a path h, behind-append b'/' a path h)

cut-port :
    (scheme host target : Text) (port : Option Text)
    → Lacks b':' host
    → split_port scheme (host ++ port_text port) target (behind b':' (host ++ port_text port))
      ≡ (record {
        scheme = scheme;
        host = host;
        port = port_or_default scheme port;
        target = target;
      })
cut-port scheme host target none h = rw (append-nil host, behind_none b':' host h)
cut-port scheme host target (some port) h =
    rw (behind-append b':' host port h, before-append b':' host port h)

authority-Lacks :
    (host : Text) (port : Option Text)
    → Lacks b'/' host
    → NoSlash port
    → Lacks b'/' (host ++ port_text port)
authority-Lacks host none h p = All-append (λ x. (x == b'/') ≡ false) host [] h tt
authority-Lacks host (some port) h p =
    All-append (λ x. (x == b'/') ≡ false) host (b':' ∷ port) h (refl, p)

-- The scheme, the host, the port and the path of a URL come back, with the scheme's default for a
-- missing port and `/` for a missing path.
pub parse_url-parts :
    (scheme host : Text) (port path : Option Text)
    → Lacks b':' scheme
    → Lacks b':' host
    → Lacks b'/' host
    → NoSlash port
    → parse_url (scheme ++ (codes "://" ++ ((host ++ port_text port) ++ path_text path)))
      ≡ some (record {
        scheme = scheme;
        host = host;
        port = port_or_default scheme port;
        target = with_slash path;
      })
unfolding parse_url
parse_url-parts scheme host port path hs hc hh hp =
    let authority = host ++ port_text port in
    let cut = cut-authority authority path (authority-Lacks host port hh hp) in
    rw (
      before-mark scheme (authority ++ path_text path) hs,
      find-mark scheme (authority ++ path_text path) hs,
      cut.0,
      cut.1,
      cut-port scheme host (with_slash path) port hc,
    )
