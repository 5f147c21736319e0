-- ===== src/Shim/Xhr/Headers.antt =====
-- Which keys the request's headers can have.
use ttlive_cpp.Prelude.{◌≡◌, refl, sym, ap, ◌∙◌, ◌≢◌, arith, List, [], ◌∷◌, codes}
use ttlive_cpp.Js.Text.{Text, same, same_iff, ne_of_same}
use ttlive_cpp.Js.Object.{own, own-assign}
use ttlive_cpp.Shim.Headers.{Lowering}
use ttlive_cpp.Shim.Xhr.{Xhr, set_request_header}

module _ (l : Lowering) where
  open l use {to_lower, to_lower_idem}

  -- A sequence of calls of `setRequestHeader`.
  pub set_all : List (Text × Text) → Xhr → Xhr
  set_all [] x = x
  set_all ((name, value) ∷ rest) x = set_all rest (set_request_header l name value x)

  one_header :
      (name value k : Text) (x : Xhr)
      → to_lower k ≢ k
      → own k (set_request_header l name value x).headers ≡ own k x.headers
  unfolding set_request_header
  one_header name value k x upper =
      let never : (to_lower name ≡ k → ⊥) =
        λ e. upper (ap to_lower (sym e) ∙ to_lower_idem name ∙ e) in
      own-assign (to_lower name) k value x.headers
      ∙ ground (arith, same_iff (to_lower name) k, never)

  -- However the SDK sets request headers, a key that is not in lower case finds what it found
  -- before: `h["X-Bogus"]` and `h["X-Gnarly"]`, which the signer reads, find nothing on a new
  -- request.
  pub own-set_all :
      (hs : List (Text × Text)) (k : Text) (x : Xhr)
      → to_lower k ≢ k
      → own k (set_all hs x).headers ≡ own k x.headers
  unfolding set_all
  own-set_all [] k x upper = refl
  own-set_all ((name, value) ∷ hs) k x upper =
      own-set_all hs k (set_request_header l name value x) upper ∙ one_header name value k x upper

  -- The two keys that the signer reads are not in lower case.
  pub x_bogus_upper : to_lower (codes "X-Bogus") ≢ codes "X-Bogus"
  unfolding same
  x_bogus_upper e =
      ne_of_same (codes "x-bogus") (codes "X-Bogus") refl
        (sym (l.to_lower_ascii (codes "X-Bogus") (omega arith)) ∙ e)

  pub x_gnarly_upper : to_lower (codes "X-Gnarly") ≢ codes "X-Gnarly"
  unfolding same
  x_gnarly_upper e =
      ne_of_same (codes "x-gnarly") (codes "X-Gnarly") refl
        (sym (l.to_lower_ascii (codes "X-Gnarly") (omega arith)) ∙ e)
