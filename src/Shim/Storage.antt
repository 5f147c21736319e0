-- ===== src/Shim/Storage.antt =====
-- `FakeStorage` of js/hybrid-fake-dom.js, the stand-in for `localStorage` and `sessionStorage`.
pub mod Laws
mod Tests
use ttlive_cpp.Prelude.{
  ℕ, List, [], ◌∷◌, ◌++◌, Option, none, some, if◌then◌else◌, map, get_elem?, length, Bool, true,
  false,
}
use ttlive_cpp.Js.Text.{Text, join}
use ttlive_cpp.Js.Object.{Dict, own, has, assign, put, remove, own_keys, is_inherited}

-- What a read gives: a text, a member of `Object.prototype`, or `null`.
pub data Item : Type 0 where
  text : Text → Item
  member : Text → Item
  null : Item

-- `o[k]` where `k in o`.
abbrev pub present : Text → Option Text → Item
present k (some v) = text v
present k none = member k

-- `keys[i] || null`: the empty key reads as `null` too.
abbrev pub or_null : Option Text → Item
or_null none = null
or_null (some []) = null
or_null (some (c ∷ s)) = text (c ∷ s)

-- `o[k] || null`
abbrev pub found_or_null : Text → Option Text → Item
found_or_null k none = if is_inherited k then member k else null
found_or_null k (some v) = or_null (some v)

pub record Storage : Type 0 where
  pub items : Dict Text

abbrev pub keys : Dict Text → List Text
keys o = own_keys (map (λ p. p.0) o)

unfoldable pub new_storage : Storage
new_storage = record { items = [] }

unfoldable pub get_item : Text → Storage → Item
get_item k s = if has k s.items then present k (own k s.items) else null

-- `v` is the text `String(v)`.
unfoldable pub set_item : Text → Text → Storage → Storage
set_item k v s = record { items = assign k v s.items }

unfoldable pub remove_item : Text → Storage → Storage
remove_item k s = record { items = remove k s.items }

unfoldable pub clear : Storage → Storage
clear s = record { items = [] }

unfoldable pub key : ℕ → Storage → Item
key i s = or_null (get_elem? (keys s.items) i)

unfoldable pub size : Storage → ℕ
size s = length (keys s.items)
