-- ===== src/Shim/Document/Laws.antt =====
-- The two searches of the document agree.
use ttlive_cpp.Prelude.{◌≡◌, ap, List, [], ◌∷◌, true, false, codes, Option, none, some, arith}
use ttlive_cpp.Js.Text.{Text, same, same_iff}
use ttlive_cpp.Shim.Headers.{Lowering}
use ttlive_cpp.Shim.Document.{PageElement, query_selector, elements_of, get_elements_by_tag_name}

abbrev pub at_most_one : Option PageElement → List PageElement
at_most_one none = []
at_most_one (some e) = e ∷ []

head_not_body : (t : Text) → same t (codes "head") ≡ true → same t (codes "body") ≡ false
unfolding same
head_not_body t h = ap (λ s. same s (codes "body")) ((same_iff t (codes "head")).0 h)

searches : (t : Text) → elements_of t ≡ at_most_one (query_selector t)
unfolding elements_of query_selector
searches t = ground (arith, head_not_body t)

-- A search by tag name finds what the selector with the tag in lower case finds, and nothing else.
pub get_elements_by_tag_name-query_selector :
    (l : Lowering) (tag : Text)
    → get_elements_by_tag_name l tag ≡ at_most_one (query_selector (l.to_lower tag))
unfolding get_elements_by_tag_name
get_elements_by_tag_name-query_selector l tag = searches (l.to_lower tag)
