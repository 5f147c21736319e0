-- ===== src/Shim/Host/Laws.antt =====
-- Searches in the tables, the order of the page's timing, and the size of a blob.
use ttlive_cpp.Prelude.{
  ℕ, ◌+◌, ◌≡◌, refl, sym, ◌∙◌, ap, inl, inr, false, List, [], ◌∷◌, ◌++◌, Option, none, some, arith,
  All, Bool-cases,
}
use ttlive_cpp.Js.Text.{Text, same, same_iff}
use ttlive_cpp.Shim.Host.{named_item, Part, other, part_size, add_sizes, new_blob}

-- What a search by name answers: the first entry of that name, with the entries before it, or
-- nothing where no entry has the name.
abbrev pub IsFirst : {A : Type 0} → (A → Text) → Text → List A → Option A → Type 0
IsFirst name_of n xs none = All (λ x. same (name_of x) n ≡ false) xs
IsFirst {A} name_of n xs (some x) =
    (before : List A) × (after : List A) × (xs ≡ before ++ (x ∷ after))
    × All (λ y. same (name_of y) n ≡ false) before
    × (name_of x ≡ n)

step_over :
    {A : Type 0} (name_of : A → Text) (n : Text) (y : A) (ys : List A) (found : Option A)
    → same (name_of y) n ≡ false
    → IsFirst name_of n ys found
    → IsFirst name_of n (y ∷ ys) found
step_over name_of n y ys none h rest = (h, rest)
step_over name_of n y ys (some x) h (before, after, e, away, name) =
    (y ∷ before, after, ap (λ zs. y ∷ zs) e, (h, away), name)

-- `namedItem` gives the first entry of that name, and `null` exactly where there is none.
pub named_item-IsFirst :
    {A : Type 0} (name_of : A → Text) (n : Text) (xs : List A)
    → IsFirst name_of n xs (named_item name_of n xs)
unfolding named_item
named_item-IsFirst name_of n [] = tt
named_item-IsFirst name_of n (x ∷ xs) = elim (Bool-cases (same (name_of x) n)) [
  | inl e ↦ rw (e) ([], xs, refl, tt, (same_iff (name_of x) n).0 e)
  | inr e ↦
      rw (e)
        (step_over name_of n x xs (named_item name_of n xs) e (named_item-IsFirst name_of n xs))
]

add_sizes-acc : (acc : ℕ) (ps : List Part) → add_sizes acc ps ≡ acc + add_sizes 0 ps
unfolding add_sizes
add_sizes-acc acc [] = omega arith
add_sizes-acc acc (p ∷ ps) =
    omega (arith, add_sizes-acc (acc + part_size p) ps, add_sizes-acc (0 + part_size p) ps)

add_sizes-append :
    (acc : ℕ) (ps qs : List Part) → add_sizes acc (ps ++ qs) ≡ add_sizes (add_sizes acc ps) qs
unfolding add_sizes
add_sizes-append acc [] qs = refl
add_sizes-append acc (p ∷ ps) qs = add_sizes-append (acc + part_size p) ps qs

the_zero : (n : ℕ) → n + 0 ≡ n
the_zero n = omega arith

-- A blob made of two lists of parts is as large as a blob of each, and a part that is neither a
-- text nor has a size adds nothing.
pub new_blob-append :
    (ps qs : List Part) (type : Option Text)
    → ((new_blob (ps ++ qs) type).size ≡ (new_blob ps type).size + (new_blob qs type).size)
      × ((new_blob (ps ++ (other ∷ qs)) type).size ≡ (new_blob (ps ++ qs) type).size)
unfolding new_blob add_sizes
new_blob-append ps qs type = (
  add_sizes-append 0 ps qs ∙ add_sizes-acc (add_sizes 0 ps) qs,
  add_sizes-append 0 ps (other ∷ qs)
      ∙ ap (λ n. add_sizes n qs) (the_zero (add_sizes 0 ps))
      ∙ sym (add_sizes-append 0 ps qs),
)
