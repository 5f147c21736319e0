-- ===== src/Shim/Headers.antt =====
-- The `Headers` of js/hybrid-fake-dom.js: names are lowered by `toLowerCase`, which is the
-- language's; `Lowering` says what is used of it.
pub mod Laws
pub mod Ascii
mod Tests
use ttlive_cpp.Prelude.{
  ℕ, ◌+◌, ◌<◌, ◌≡◌, List, [], ◌∷◌, All, Option, Bool, map, ◌&&◌, leb, if◌then◌else◌,
}
use ttlive_cpp.Js.Text.{Text}
use ttlive_cpp.Js.Object.{Dict, own, has, put, assign, remove}
use ttlive_cpp.Shim.Storage.{Item, found_or_null}

abbrev pub lower_ascii : ℕ → ℕ
lower_ascii c = if leb b'A' c && leb c b'Z' then c + 32 else c

-- `String.prototype.toLowerCase`: a second call changes nothing, and on ASCII it lowers the
-- letters one by one.
pub record Lowering : Type 0 where
  pub to_lower : Text → Text
  pub to_lower_idem : (s : Text) → to_lower (to_lower s) ≡ to_lower s
  pub to_lower_ascii : (s : Text) → All (λ c. c < 128) s → to_lower s ≡ map lower_ascii s

module _ (l : Lowering) where
  open l use {to_lower}

  -- `set` and `append` are the same function.
  unfoldable pub set : Text → Text → Dict Text → Dict Text
  set k v h = assign (to_lower k) v h

  unfoldable pub get : Text → Dict Text → Item
  get k h = found_or_null (to_lower k) (own (to_lower k) h)

  unfoldable pub contains : Text → Dict Text → Bool
  contains k h = has (to_lower k) h

  unfoldable pub delete : Text → Dict Text → Dict Text
  delete k h = remove (to_lower k) h

  -- `for (var k in init) h[k.toLowerCase()] = init[k]`, over the pairs of `init` in key order.
  unfoldable pub create : List (Text × Text) → Dict Text → Dict Text
  create [] h = h
  create ((k, v) ∷ init) h = create init (assign (to_lower k) v h)
