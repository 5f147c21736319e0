-- ===== src/Js/Object/Keys.antt =====
-- The order of an object's own keys: array indices by their value, then the rest as created.
use ttlive_cpp.Prelude.{
  ℕ, ◌+◌, ◌-◌, ◌*◌, ◌^◌, Bool, ◌&&◌, List, [], ◌∷◌, ◌++◌, Option, none, some, ltb, leb, ◌==◌,
  if◌then◌else◌, map,
}
use ttlive_cpp.Js.Text.{Text}

is_digit : ℕ → Bool
is_digit c = leb b'0' c && leb c b'9'

digits_value : ℕ → Text → Option ℕ
digits_value acc [] = some acc
digits_value acc (c ∷ s) =
    let rest = digits_value (acc * 10 + (c - b'0')) s in if is_digit c then rest else none

in_range : Option ℕ → Option ℕ
in_range none = none
in_range (some n) = if ltb n (2 ^ 32 - 1) then some n else none

-- The number that a key spells, if the key is a canonical array index.
unfoldable pub array_index : Text → Option ℕ
unfolding is_digit digits_value in_range
array_index [] = none
array_index (c ∷ []) = if is_digit c then some (c - b'0') else none
array_index (c ∷ d ∷ s) = if c == b'0' then none else in_range (digits_value 0 (c ∷ d ∷ s))

-- The index keys seen so far, by value.
insert_index : ℕ → Text → List (ℕ × Text) → List (ℕ × Text)
insert_index n k [] = (n, k) ∷ []
insert_index n k ((m, j) ∷ rest) =
    if ltb m n then (m, j) ∷ insert_index n k rest else (n, k) ∷ (m, j) ∷ rest

split_keys : List Text → List (ℕ × Text) × List Text
split_keys [] = ([], [])
split_keys (k ∷ ks) =
    let (numbers, names) = split_keys ks in
    elim (array_index k) [
      | none ↦ (numbers, k ∷ names)
      | some n ↦ (insert_index n k numbers, names)
    ]

-- `Object.keys(o)`, and the order of `for (k in o)`, from the keys as they were created.
unfoldable pub own_keys : List Text → List Text
unfolding split_keys insert_index array_index
own_keys ks = let (numbers, names) = split_keys ks in map (λ p. p.1) numbers ++ names
