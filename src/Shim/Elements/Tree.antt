-- ===== src/Shim/Elements/Tree.antt =====
-- What the tree operations keep, and what they leave behind.
use ttlive_cpp.Prelude.{
  ℕ, ◌==◌, ◌≡◌, not, Option, none, some, if◌then◌else◌, arith, [], ◌∷◌, ◌++◌, keep,
}
use ttlive_cpp.Js.Text.{Text}
use ttlive_cpp.Shim.Elements.{
  Dom, Call, creates, appends, removes_child, inserts, replaces, removes, clones, append_child,
  remove_child, insert_before, replace_child, remove_element, create, clone_node, perform,
  remove_from,
}

-- The two lists of children of every element agree.
abbrev pub IsMirrored : Dom → Type 0
IsMirrored d = (i : ℕ) → (d.node i).children ≡ (d.node i).child_nodes

create-IsMirrored : (tag : Text) (d : Dom) → IsMirrored d → IsMirrored (create tag d).0
unfolding create
create-IsMirrored tag d h i = ground (arith, h i)

append_child-IsMirrored : (p c : ℕ) (d : Dom) → IsMirrored d → IsMirrored (append_child p c d)
unfolding append_child
append_child-IsMirrored p c d h i = ground (arith, h i, h p, h c)

remove_child-IsMirrored : (p c : ℕ) (d : Dom) → IsMirrored d → IsMirrored (remove_child p c d)
unfolding remove_child
remove_child-IsMirrored p c d h i = ground (arith, h i, h p)

remove_from-IsMirrored :
    (o : Option ℕ) (e : ℕ) (d : Dom) → IsMirrored d → IsMirrored (remove_from o e d)
remove_from-IsMirrored none e d h = h
remove_from-IsMirrored (some p) e d h = remove_child-IsMirrored p e d h

remove_element-IsMirrored : (e : ℕ) (d : Dom) → IsMirrored d → IsMirrored (remove_element e d)
unfolding remove_element
remove_element-IsMirrored e d h = remove_from-IsMirrored (d.node e).parent_node e d h

-- Every call keeps `children` and `childNodes` of every element equal.
pub perform-IsMirrored : (c : Call) (d : Dom) → IsMirrored d → IsMirrored (perform c d)
unfolding perform insert_before replace_child clone_node
perform-IsMirrored (creates tag) d h = create-IsMirrored tag d h
perform-IsMirrored (appends p c) d h = append_child-IsMirrored p c d h
perform-IsMirrored (removes_child p c) d h = remove_child-IsMirrored p c d h
perform-IsMirrored (inserts p c ref) d h = append_child-IsMirrored p c d h
perform-IsMirrored (replaces p new old) d h =
    append_child-IsMirrored p new (remove_child p old d) (remove_child-IsMirrored p old d h)
perform-IsMirrored (removes e) d h = remove_element-IsMirrored e d h
perform-IsMirrored (clones e) d h = create-IsMirrored (d.node e).tag_name d h

-- `appendChild` puts the child at the end of the new parent's list and sets its parent; every
-- other list of children stays as it was, that of a former parent included.
pub append_child-effect :
    (p c q : ℕ) (d : Dom)
    → (((append_child p c d).node q).children
        ≡ (if p == q then (d.node q).children ++ (c ∷ []) else (d.node q).children))
      × (((append_child p c d).node q).parent_node
          ≡ (if c == q then some p else (d.node q).parent_node))
unfolding append_child
append_child-effect p c q d = (ground arith, ground arith)

-- `removeChild` takes every occurrence of the child out of the parent's list and touches neither
-- another list nor any element's parent: the child still names the parent that it left.
pub remove_child-effect :
    (p c q : ℕ) (d : Dom)
    → (((remove_child p c d).node q).children
        ≡ (if p == q then keep (λ x. not (x == c)) (d.node q).children else (d.node q).children))
      × (((remove_child p c d).node q).parent_node ≡ (d.node q).parent_node)
unfolding remove_child
remove_child-effect p c q d = (ground arith, ground arith)
