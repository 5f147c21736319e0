-- ===== src/Shim/Params.antt =====
-- The fallback `URLSearchParams` of js/hybrid-fake-dom.js: a closure over `params`, which the
-- constructor leaves empty whatever its argument.
use ttlive_cpp.Prelude.{List, [], Option, map, Bool}
use ttlive_cpp.Js.Text.{Text}
use ttlive_cpp.Js.Object.{Dict, own, has, assign, remove}
use ttlive_cpp.Shim.Storage.{Item, found_or_null, keys}

unfoldable pub create : Text → Dict Text
create init = []

unfoldable pub get : Text → Dict Text → Item
get k params = found_or_null k (own k params)

unfoldable pub set : Text → Text → Dict Text → Dict Text
set k v params = assign k v params

unfoldable pub contains : Text → Dict Text → Bool
contains k params = has k params

unfoldable pub delete : Text → Dict Text → Dict Text
delete k params = remove k params

value_at : Dict Text → Text → Text × Option Text
value_at params k = (k, own k params)

-- `entries`, and with the pair turned round what `forEach` hands to its callback.
unfoldable pub entries : Dict Text → List (Text × Option Text)
unfolding value_at
entries params = map (value_at params) (keys params)
