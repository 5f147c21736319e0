-- ===== src/Shim/Elements/Tests.antt =====
-- Elements and a tree of three of them.
use ttlive_cpp.Prelude.{◌≡◌, refl, ◌∷◌, [], All, codes, false, some, none}
use ttlive_cpp.Js.Text.{same}
use ttlive_cpp.Js.Object.{is_inherited}
use ttlive_cpp.Shim.Storage.{null}
use ttlive_cpp.Shim.Elements.{
  Element, Dom, new_element, get_attribute, set_attribute, remove_attribute, has_attribute,
  append_child, remove_child, perform, appends,
}
use ttlive_cpp.Shim.Elements.Attributes.{remove_attribute-gone}
use ttlive_cpp.Shim.Elements.Tree.{
  IsMirrored, perform-IsMirrored, append_child-effect, remove_child-effect,
}

abbrev script : Element
script = set_attribute (codes "src") (codes "/a.js") (new_element (codes "SCRIPT"))

src_removed :
    (get_attribute (codes "src") (remove_attribute (codes "src") script) ≡ null)
    × (has_attribute (codes "src") (remove_attribute (codes "src") script) ≡ false)
    × All (λ a. same a.0 (codes "src") ≡ false) (remove_attribute (codes "src") script).attrs
unfolding is_inherited same
src_removed = remove_attribute-gone (codes "src") script

-- Element 2 is a child of element 0, and moves to element 1.
abbrev page : Dom
page = append_child 0 2 (record { next = 3; node = λ i. new_element (codes "DIV") })

page-IsMirrored : IsMirrored page
unfolding append_child new_element perform
page-IsMirrored i =
    perform-IsMirrored (appends 0 2) (record { next = 3; node = λ j. new_element (codes "DIV") })
      (λ j. refl) i

perform-IsMirrored_case : IsMirrored (perform (appends 1 2) page)
perform-IsMirrored_case = perform-IsMirrored (appends 1 2) page page-IsMirrored

first_parent_keeps_child :
    (((append_child 1 2 page).node 0).children ≡ (2 ∷ []))
    × (((append_child 1 2 page).node 0).parent_node ≡ none)
unfolding append_child new_element
first_parent_keeps_child = append_child-effect 1 2 0 page

removed_child_keeps_parent :
    (((remove_child 0 2 page).node 2).children ≡ [])
    × (((remove_child 0 2 page).node 2).parent_node ≡ some 0)
unfolding append_child new_element
removed_child_keeps_parent = remove_child-effect 0 2 2 page
