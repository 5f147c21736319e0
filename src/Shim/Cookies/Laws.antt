-- ===== src/Shim/Cookies/Laws.antt =====
-- What `__setCookie` changes in the jar.
use mathlib.Core.List.{append-nil}
use ttlive_cpp.Prelude.{
  ◌≡◌, refl, ap, ◌∙◌, sym, ◌⊎◌, inl, inr, [], ◌∷◌, ◌++◌, some, if◌then◌else◌, ◌&&◌, not, arith,
  All-append,
}
use ttlive_cpp.Js.Text.{
  Text, same, behind, trim, Lacks, before-append, before_all, behind-append, behind_none,
}
use ttlive_cpp.Js.Object.{own, own-assign, proto_key}
use ttlive_cpp.Shim.Cookies.{Jar, store, set_pair, set_cookie}

-- What a cookie text says after its first pair: nothing, or attributes behind a semicolon.
abbrev pub IsTail : Text → Type 0
IsTail t = (t ≡ []) ⊎ ((r : Text) × (t ≡ b';' ∷ r))

whole : (s : Text) (jar : Jar) → Lacks b';' s → set_cookie s jar ≡ set_pair s jar
unfolding set_cookie
whole [] jar h = unfold set_pair behind in refl
whole (c ∷ s) jar h = rw (before_all b';' (c ∷ s) h)

behind_tail :
    (s rest : Text) (jar : Jar)
    → Lacks b';' s
    → set_cookie (s ++ (b';' ∷ rest)) jar ≡ set_pair s jar
unfolding set_cookie
behind_tail [] rest jar h = rw (before-append b';' [] rest h)
behind_tail (c ∷ s) rest jar h = rw (before-append b';' (c ∷ s) rest h)

with_tail :
    (s tail : Text) (jar : Jar)
    → Lacks b';' s
    → IsTail tail
    → set_cookie (s ++ tail) jar ≡ set_pair s jar
with_tail s tail jar h (inl e) = rw (e, append-nil) (whole s jar h)
with_tail s tail jar h (inr (r, e)) = rw e (behind_tail s r jar h)

-- Whatever stands behind the first semicolon is ignored: of a header with several cookies, as
-- `HttpClient::cookie_header` writes it, only the first one reaches the jar.
pub set_cookie_first :
    (str rest : Text) (jar : Jar)
    → Lacks b';' str
    → set_cookie (str ++ (b';' ∷ rest)) jar ≡ set_cookie str jar
set_cookie_first str rest jar h = behind_tail str rest jar h ∙ sym (whole str jar h)

-- A text with no `=` before its first semicolon changes nothing.
pub set_cookie_no_value :
    (str tail : Text) (jar : Jar)
    → Lacks b'=' str
    → Lacks b';' str
    → IsTail tail
    → set_cookie (str ++ tail) jar ≡ jar
unfolding set_pair
set_cookie_no_value str tail jar no_eq no_semi t =
    with_tail str tail jar no_semi t ∙ rw (behind_none b'=' str no_eq, set_pair)

set_pair-split :
    (name value : Text) (jar : Jar)
    → Lacks b'=' name
    → set_pair (name ++ (b'=' ∷ value)) jar ≡ store (trim name) (trim value) jar
unfolding set_pair
set_pair-split name value jar no_eq =
    rw (behind-append b'=' name value no_eq, set_pair) (rw (before-append b'=' name value no_eq))

store-own :
    (key val j : Text) (jar : Jar)
    → own j (store key val jar) ≡ (
        if same key j && not (same key []) && not (same key proto_key) then some val else own j jar)
unfolding store same
store-own [] val j jar = ground arith
store-own (c ∷ key) val j jar = ground (arith, own-assign (c ∷ key) j val jar)

-- `name=value`, with or without attributes behind it, sets the trimmed name to the trimmed value
-- and leaves every other cookie alone; an empty name and `__proto__` are not stored.
pub set_cookie_lem :
    (name value tail j : Text) (jar : Jar)
    → Lacks b'=' name
    → Lacks b';' name
    → Lacks b';' value
    → IsTail tail
    → own j (set_cookie ((name ++ (b'=' ∷ value)) ++ tail) jar) ≡ (
        if same (trim name) j && not (same (trim name) []) && not (same (trim name) proto_key)
        then some (trim value)
        else own j jar)
set_cookie_lem name value tail j jar no_eq no_semi v_semi t =
    ap (own j) (
      with_tail (name ++ (b'=' ∷ value)) tail jar
        (All-append _ name (b'=' ∷ value) no_semi (refl, v_semi)) t
      ∙ set_pair-split name value jar no_eq)
    ∙ store-own (trim name) (trim value) j jar
