-- ===== src/Shim/Storage/Laws.antt =====
-- A storage behaves as a map from keys to texts, but for the names of `Object.prototype`.
use ttlive_cpp.Prelude.{◌≡◌, not, ◌&&◌, if◌then◌else◌, arith}
use ttlive_cpp.Js.Text.{Text, same}
use ttlive_cpp.Js.Object.{
  has, has_own-assign, own-assign, own-remove, has_own-remove, proto_key, is_inherited,
}
use ttlive_cpp.Shim.Storage.{Storage, text, member, null, get_item, set_item, remove_item}

-- A read after a write: the written key has the new text, every other key reads as before, and a
-- write to `__proto__` is lost.
pub get_item-set_item :
    (k j v : Text) (s : Storage)
    → get_item j (set_item k v s)
      ≡ (if same k j && not (same k proto_key) then text v else get_item j s)
unfolding get_item set_item has
get_item-set_item k j v s = ground (arith, has_own-assign k j v s.items, own-assign k j v s.items)

-- A removed key reads as `null`, unless `Object.prototype` has a member of that name, which is
-- then read instead; every other key reads as before.
pub get_item-remove_item :
    (k j : Text) (s : Storage)
    → get_item j (remove_item k s)
      ≡ (if same k j then (if is_inherited j then member j else null) else get_item j s)
unfolding get_item remove_item has
get_item-remove_item k j s = ground (arith, has_own-remove k j s.items, own-remove k j s.items)
