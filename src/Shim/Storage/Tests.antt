-- ===== src/Shim/Storage/Tests.antt =====
-- A storage at concrete keys.
use ttlive_cpp.Prelude.{◌≡◌, codes}
use ttlive_cpp.Js.Text.{same}
use ttlive_cpp.Js.Object.{is_inherited}
use ttlive_cpp.Shim.Storage.{text, member, get_item, set_item, remove_item, new_storage}
use ttlive_cpp.Shim.Storage.Laws.{get_item-set_item, get_item-remove_item}

written_token :
    get_item (codes "xmst") (set_item (codes "xmst") (codes "t") new_storage) ≡ text (codes "t")
unfolding same
written_token = get_item-set_item (codes "xmst") (codes "xmst") (codes "t") new_storage

removed_item_reads_as_member :
    get_item (codes "toString") (remove_item (codes "toString") new_storage)
    ≡ member (codes "toString")
unfolding same is_inherited
removed_item_reads_as_member =
    get_item-remove_item (codes "toString") (codes "toString") new_storage
