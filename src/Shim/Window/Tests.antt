-- ===== src/Shim/Window/Tests.antt =====
-- The window at concrete names.
use ttlive_cpp.Prelude.{
  ℕ, ◌≡◌, refl, ◌∷◌, [], ◌↔◌, codes, true, false, Option, some, none, if◌then◌else◌, ◌==◌,
}
use ttlive_cpp.Js.Text.{Text, same}
use ttlive_cpp.Js.Object.{own, proto_key}
use ttlive_cpp.Shim.Window.{
  Engine, Member, holds, fixed, poisoned, Window, plain, proxy, threw, get, set, contains, is_self,
  is_some, is_wrapped, look, write,
}
use ttlive_cpp.Shim.Window.Laws.{contains-get, get-set, after}

-- What a function of the engine has: a name and a length, which cannot be written, and `caller`.
abbrev function_member : Text → Option (Member ℕ)
function_member k =
    if same k (codes "name")
    then some (fixed 2)
    else if same k (codes "caller")
    then some poisoned
    else if same k proto_key
    then some (holds 4)
    else none

-- What an object of the engine has.
abbrev object_member : Text → Option (Member ℕ)
object_member k = if same k proto_key then some (holds 6) else none

abbrev foo_member : Text → Option (Member ℕ)
foo_member k = if same k (codes "foo") then some (holds 8) else object_member k

-- The value 7 is an object that has `foo`.
abbrev members : ℕ → Option (Text → Option (Member ℕ))
members v = if v == 7 then some foo_member else none

-- An engine with `Math`.
abbrev engine : Engine ℕ
engine = record { builtin = λ k. if same k (codes "Math") then some 1 else none; members = members }

abbrev window : Window ℕ
window = record {
  target = record { own_dict = []; inherited = function_member };
  apis = record { own_dict = (codes "name", 3) ∷ []; inherited = object_member };
}

unknown_name_not_in :
    (contains engine (codes "foo") window ≡ false)
    ↔ (get engine (codes "foo") window ≡ proxy (codes "foo"))
unknown_name_not_in = contains-get engine (codes "foo") window

-- A new name is read back.
get-set_example :
    (is_some (set engine (codes "foo") 5 window) ≡ true)
    × (get engine (codes "foo") (after engine (set engine (codes "foo") 5 window) window) ≡ plain 5)
unfolding same own is_self look
get-set_example = get-set engine (codes "foo") (codes "foo") 5 window refl

-- `window.name = 5` is not: the write goes to the table, and the read finds the function's name.
name_is_lost :
    (is_some (set engine (codes "name") 5 window) ≡ true)
    × (get engine (codes "name") (after engine (set engine (codes "name") 5 window) window)
        ≡ plain 2)
unfolding same own is_self look get
name_is_lost = get-set engine (codes "name") (codes "name") 5 window refl

-- `window.caller = 5` throws, and so does the read.
caller_throws :
    (is_some (set engine (codes "caller") 5 window) ≡ false)
    × (get engine (codes "caller") (after engine (set engine (codes "caller") 5 window) window)
        ≡ threw)
unfolding same own is_self look get
caller_throws = get-set engine (codes "caller") (codes "caller") 5 window refl

-- A write of an object to `__proto__` changes what another name reads as; a write of a number does not.
new_prototype_is_read :
    (get engine (codes "foo") (after engine (set engine proto_key 7 window) window) ≡ plain 8)
    × (get engine (codes "foo") (after engine (set engine proto_key 5 window) window)
        ≡ proxy (codes "foo"))
unfolding same own is_self is_wrapped look get set write
new_prototype_is_read = (refl, refl)
