-- ===== src/Shim/Document.antt =====
-- The searches of `fakeDocument` in js/hybrid-fake-dom.js, which know three elements, and the nodes
-- that it creates without a `FakeElement`.
pub mod Laws
use ttlive_cpp.Prelude.{ℕ, List, [], ◌∷◌, if◌then◌else◌, codes, Option, none, some}
use ttlive_cpp.Js.Text.{Text, same}
use ttlive_cpp.Shim.Headers.{Lowering}

pub data PageElement : Type 0 where
  head_element body_element html_element : PageElement

-- `querySelector`; `none` is `null`.
unfoldable pub query_selector : Text → Option PageElement
query_selector sel =
    if same sel (codes "head")
    then some head_element
    else if same sel (codes "body")
    then some body_element
    else if same sel (codes "html")
    then some html_element
    else none

unfoldable pub elements_of : Text → List PageElement
elements_of tag =
    if same tag (codes "body")
    then body_element ∷ []
    else if same tag (codes "head")
    then head_element ∷ []
    else if same tag (codes "html")
    then html_element ∷ []
    else if same tag (codes "script")
    then []
    else []

unfoldable pub get_elements_by_tag_name : Lowering → Text → List PageElement
get_elements_by_tag_name l tag = elements_of (l.to_lower tag)

pub record LeafNode : Type 0 where
  pub node_type : ℕ
  pub text_content : Text
  pub node_name : Text

unfoldable pub create_text_node : Text → LeafNode
create_text_node text = record { node_type = 3; text_content = text; node_name = codes "#text" }

unfoldable pub create_comment : Text → LeafNode
create_comment text = record { node_type = 8; text_content = text; node_name = codes "#comment" }
