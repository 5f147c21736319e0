-- ===== src/Shim/Elements.antt =====
-- `FakeElement` of js/hybrid-fake-dom.js on a heap of elements: attributes, and the tree that
-- `appendChild` and its relatives build. An element is known by its place in the heap.
pub mod Attributes
pub mod Tree
mod Tests
use ttlive_cpp.Prelude.{
  ℕ, zero, suc, ◌==◌, Bool, true, false, not, List, [], ◌∷◌, ◌++◌, Option, none, some,
  if◌then◌else◌, keep, codes, length, ltb,
}
use ttlive_cpp.Js.Text.{Text, same}
use ttlive_cpp.Js.Object.{Dict, own, has, assign, remove, is_inherited}
use ttlive_cpp.Shim.Events.{Registry}
use ttlive_cpp.Shim.Storage.{Item, text, member, null}

-- The fields that the methods change. The sizes and positions are constants (100 and 0), the
-- remaining texts are empty, and the tag is given in upper case.
pub record Element : Type 0 where
  pub tag_name : Text
  pub children : List ℕ
  pub child_nodes : List ℕ
  pub attributes : Dict Text
  pub attrs : List (Text × Text)
  pub id : Text
  pub class_name : Text
  pub parent_node : Option ℕ
  pub parent_element : Option ℕ
  pub listeners : Registry

unfoldable pub new_element : Text → Element
new_element tag = record {
  tag_name = tag;
  children = [];
  child_nodes = [];
  attributes = [];
  attrs = [];
  id = [];
  class_name = [];
  parent_node = none;
  parent_element = none;
  listeners = [];
}

unfoldable pub set_attribute : Text → Text → Element → Element
set_attribute k v e = record e {
  attributes = assign k v e.attributes;
  attrs = e.attrs ++ ((k, v) ∷ []);
  id = if same k (codes "id") then v else e.id;
  class_name = if same k (codes "class") then v else e.class_name;
}

-- `attributes[k] !== undefined ? attributes[k] : null`
abbrev attribute_or_null : Text → Option Text → Item
attribute_or_null k (some v) = text v
attribute_or_null k none = if is_inherited k then member k else null

unfoldable pub get_attribute : Text → Element → Item
get_attribute k e = attribute_or_null k (own k e.attributes)

unfoldable pub has_attribute : Text → Element → Bool
has_attribute k e = has k e.attributes

unfoldable pub remove_attribute : Text → Element → Element
remove_attribute k e = record e {
  attributes = remove k e.attributes;
  attrs = keep (λ a. not (same a.0 k)) e.attrs;
}

-- The elements made so far are those below `next`.
pub record Dom : Type 0 where
  pub next : ℕ
  pub node : ℕ → Element

abbrev pub update : (ℕ → Element) → ℕ → Element → ℕ → Element
update node i e j = if i == j then e else node j

unfoldable pub create : Text → Dom → Dom × ℕ
unfolding new_element
create tag d = (record { next = suc d.next; node = update d.node d.next (new_element tag) }, d.next)

abbrev pub with_child : ℕ → Element → Element
with_child c e = record e {
  children = e.children ++ (c ∷ []);
  child_nodes = e.child_nodes ++ (c ∷ []);
}

abbrev pub with_parent : ℕ → Element → Element
with_parent p e = record e { parent_node = some p; parent_element = some p }

abbrev pub without_child : ℕ → Element → Element
without_child c e = record e {
  children = keep (λ x. not (x == c)) e.children;
  child_nodes = keep (λ x. not (x == c)) e.child_nodes;
}

-- The child is pushed first, and then gets its new parent.
unfoldable pub append_child : ℕ → ℕ → Dom → Dom
append_child p c d =
    let pushed : ℕ → Element = update d.node p (with_child c (d.node p)) in
    record d { node = update pushed c (with_parent p (pushed c)) }

unfoldable pub remove_child : ℕ → ℕ → Dom → Dom
remove_child p c d = record d { node = update d.node p (without_child c (d.node p)) }

-- The reference is ignored: the new child goes to the end.
unfoldable pub insert_before : ℕ → ℕ → Option ℕ → Dom → Dom
unfolding append_child
insert_before p c ref d = append_child p c d

unfoldable pub replace_child : ℕ → ℕ → ℕ → Dom → Dom
unfolding append_child remove_child
replace_child p new old d = append_child p new (remove_child p old d)

abbrev pub remove_from : Option ℕ → ℕ → Dom → Dom
remove_from none e d = d
remove_from (some p) e d = remove_child p e d

unfoldable pub remove_element : ℕ → Dom → Dom
unfolding remove_child
remove_element e d = remove_from (d.node e).parent_node e d

unfoldable pub clone_node : ℕ → Dom → Dom × ℕ
unfolding create
clone_node e d = create (d.node e).tag_name d

abbrev first_of_list : List ℕ → Option ℕ
first_of_list [] = none
first_of_list (x ∷ xs) = some x

unfoldable pub last_of_list : List ℕ → Option ℕ
last_of_list [] = none
last_of_list (x ∷ []) = some x
last_of_list (x ∷ y ∷ xs) = last_of_list (y ∷ xs)

unfoldable pub first_element_child : ℕ → Dom → Option ℕ
first_element_child e d = first_of_list (d.node e).children

unfoldable pub last_element_child : ℕ → Dom → Option ℕ
last_element_child e d = last_of_list (d.node e).children

unfoldable pub child_element_count : ℕ → Dom → ℕ
child_element_count e d = length (d.node e).children

unfoldable pub has_child_nodes : ℕ → Dom → Bool
has_child_nodes e d = ltb 0 (length (d.node e).child_nodes)

-- The calls that change the tree.
pub data Call : Type 0 where
  creates : Text → Call
  appends removes_child : ℕ → ℕ → Call
  inserts : ℕ → ℕ → Option ℕ → Call
  replaces : ℕ → ℕ → ℕ → Call
  removes clones : ℕ → Call

unfoldable pub perform : Call → Dom → Dom
perform (creates tag) d = (create tag d).0
perform (appends p c) d = append_child p c d
perform (removes_child p c) d = remove_child p c d
perform (inserts p c ref) d = insert_before p c ref d
perform (replaces p new old) d = replace_child p new old d
perform (removes e) d = remove_element e d
perform (clones e) d = (clone_node e d).0
