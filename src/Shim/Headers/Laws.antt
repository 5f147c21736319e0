-- ===== src/Shim/Headers/Laws.antt =====
-- Header names do not depend on the case of their letters.
use ttlive_cpp.Prelude.{◌≡◌, not, ◌&&◌, if◌then◌else◌, some, arith}
use ttlive_cpp.Js.Text.{Text, same}
use ttlive_cpp.Js.Object.{Dict, own-assign, proto_key}
use ttlive_cpp.Shim.Storage.{or_null}
use ttlive_cpp.Shim.Headers.{Lowering, set, get}

module _ (l : Lowering) where
  open l use {to_lower}

  -- After `set k v`, a `get j` finds `v` (an empty `v` reads as `null`) exactly for the names
  -- that lower to the same text, other than `__proto__`; it reads every other name as before.
  pub get-set_header :
      (k j v : Text) (h : Dict Text)
      → get l j (set l k v h) ≡ (
          if same (to_lower k) (to_lower j) && not (same (to_lower k) proto_key)
          then or_null (some v)
          else get l j h)
  unfolding get set
  get-set_header k j v h = ground (arith, own-assign (to_lower k) (to_lower j) v h)
