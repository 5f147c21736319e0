-- ===== src/Shim/Window.antt =====
-- The window proxy of js/hybrid-fake-dom.js: its `get`, `set` and `has` traps over the properties
-- that the SDK has set (`target`), the table `browserAPIs` and the table `nativeBuiltins`.
pub mod Laws
mod Tests
use ttlive_cpp.Prelude.{
  Bool, true, false, ◌||◌, ◌&&◌, not, List, [], ◌∷◌, ◌++◌, Option, none, some, if◌then◌else◌, codes,
  any,
}
use ttlive_cpp.Js.Text.{Text, same}
use ttlive_cpp.Js.Object.{Dict, own, put, proto_key}

-- A member of an object: it has a value, which a write replaces; it has a value and a write throws, as
-- for the `length` of a function; or it throws when it is read or written, as `caller` and `arguments`
-- of a function in strict mode do.
pub data Member {ℓ} (V : Type ℓ) : Type ℓ where
  holds : V → Member V
  fixed : V → Member V
  poisoned : Member V

-- What the engine gives: `nativeBuiltins`, which a sweep over the engine's globals fills, with what
-- it inherits, and the members that are found on a value which becomes a prototype; a value that is
-- neither an object nor `null` has none and becomes no prototype.
pub record Engine {ℓ} (V : Type ℓ) : Type ℓ where
  pub builtin : Text → Option V
  pub members : V → Option (Text → Option (Member V))

-- An object: its own properties, and what it finds on its prototypes. Apart from `__proto__` these have
-- no setters.
pub record Side {ℓ} (V : Type ℓ) : Type ℓ where
  pub own_dict : Dict V
  pub inherited : Text → Option (Member V)

-- The function `windowTarget` and the table `browserAPIs`.
pub record Window {ℓ} (V : Type ℓ) : Type ℓ where
  pub target : Side V
  pub apis : Side V

pub data Got {ℓ} (V : Type ℓ) : Type ℓ where
  itself : Got V
  plain : V → Got V
  wrapped : V → Text → Got V
  proxy : Text → Got V
  threw : Got V

unfoldable pub is_self : Text → Bool
is_self k = same k (codes "window") || same k (codes "self") || same k (codes "globalThis")

-- `safeProxyWrappedAPIs`
abbrev pub wrapped_names : List Text
wrapped_names =
    codes "navigator"
    ∷ codes "document"
    ∷ codes "screen"
    ∷ codes "location"
    ∷ codes "history"
    ∷ codes "performance"
    ∷ codes "crypto"
    ∷ codes "indexedDB"
    ∷ codes "__SLARDAR_REGISTRY__"
    ∷ []

unfoldable pub is_wrapped : Text → Bool
is_wrapped k = any (same k) wrapped_names

abbrev pub is_some {ℓ} : {V : Type ℓ} → Option V → Bool
is_some none = false
is_some (some v) = true

module _ {ℓ} {V : Type ℓ} where
  -- `o[prop]` where `prop in o`.
  abbrev or_inherited : Option (Member V) → Option V → Option (Member V)
  or_inherited m none = m
  or_inherited m (some v) = some (holds v)

  unfoldable pub look : Text → Side V → Option (Member V)
  look k s = or_inherited (s.inherited k) (own k s.own_dict)

  abbrev pub target_got : Member V → Got V
  target_got (holds v) = plain v
  target_got (fixed v) = plain v
  target_got poisoned = threw

  abbrev pub api_got : Text → Member V → Got V
  api_got k (holds v) = if is_wrapped k then wrapped v k else plain v
  api_got k (fixed v) = if is_wrapped k then wrapped v k else plain v
  api_got k poisoned = threw

  abbrev pub else_api : Text → Option (Member V) → Got V
  else_api k none = proxy k
  else_api k (some m) = api_got k m

  abbrev pub else_target : Text → Option (Member V) → Option (Member V) → Got V
  else_target k api none = else_api k api
  else_target k api (some m) = target_got m

  abbrev pub else_builtin : Text → Window V → Option V → Got V
  else_builtin k w none = else_target k (look k w.apis) (look k w.target)
  else_builtin k w (some v) = plain v

  -- `o[prop] = v`; `none` is a TypeError. The setter behind `__proto__` makes `v` the prototype.
  abbrev pub new_prototype : V → Option (Text → Option (Member V)) → Side V → Side V
  new_prototype v none s = s
  new_prototype v (some f) s = record s {
    inherited = λ k. if same k proto_key && is_some (f k) then some (holds v) else f k;
  }

  abbrev pub put_own : Text → V → Side V → Side V
  put_own k v s = record s { own_dict = put k v s.own_dict }

  abbrev pub write_inherited :
      Option (Text → Option (Member V)) → Text → V → Option (Member V) → Side V → Option (Side V)
  write_inherited f k v none s = some (put_own k v s)
  write_inherited f k v (some (holds x)) s =
      some (if same k proto_key then new_prototype v f s else put_own k v s)
  write_inherited f k v (some (fixed x)) s = none
  write_inherited f k v (some poisoned) s = none

  abbrev pub write_own :
      Option (Text → Option (Member V)) → Text → V → Option V → Side V → Option (Side V)
  write_own f k v none s = write_inherited f k v (s.inherited k) s
  write_own f k v (some x) s = some (put_own k v s)

  unfoldable pub write : Option (Text → Option (Member V)) → Text → V → Side V → Option (Side V)
  write f k v s = write_own f k v (own k s.own_dict) s

  abbrev pub with_apis : Window V → Option (Side V) → Option (Window V)
  with_apis w none = none
  with_apis w (some s) = some (record w { apis = s })

  abbrev pub with_target : Window V → Option (Side V) → Option (Window V)
  with_target w none = none
  with_target w (some s) = some (record w { target = s })

module _ {ℓ} {V : Type ℓ} (engine : Engine V) where
  unfoldable pub get : Text → Window V → Got V
  get k w = if is_self k then itself else else_builtin k w (engine.builtin k)

  -- `none` is an exception, and else the trap answers `true`.
  unfoldable pub set : Text → V → Window V → Option (Window V)
  set k v w =
      if is_some (look k w.apis)
      then with_apis w (write (engine.members v) k v w.apis)
      else with_target w (write (engine.members v) k v w.target)

  unfoldable pub contains : Text → Window V → Bool
  contains k w =
      is_self k
      || is_some (engine.builtin k)
      || is_some (look k w.apis)
      || is_some (look k w.target)
