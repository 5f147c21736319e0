-- ===== src/Shim/SafeProxy.antt =====
-- `safeProxy` of js/hybrid-fake-dom.js: what the traps of such a proxy answer.
pub mod Laws
mod Tests
use ttlive_cpp.Prelude.{
  ℕ, Bool, true, false, ◌||◌, List, [], ◌∷◌, ◌++◌, Option, none, some, if◌then◌else◌, codes,
}
use ttlive_cpp.Js.Text.{Text, same}
use ttlive_cpp.Js.Object.{Dict, own, put}

-- A value of the program, as far as the traps look: objects and functions by their identity.
pub data Value : Type 0 where
  undefined null : Value
  primitive : ℕ → Value
  object function : ℕ → Value

-- A property key: a name, or one of the two symbols that the `get` trap knows, or another symbol.
pub data Key : Type 0 where
  named : Text → Key
  to_primitive iterator : Key
  symbol : ℕ → Key

-- What is wrapped. `lookup` is `target[prop]` where `prop in target`, prototype included.
pub record Target : Type 0 where
  pub is_function : Bool
  pub lookup : Key → Option Value
  pub path : Option Text

-- `if (target === null || target === undefined) target = function(){}`, and a primitive is
-- returned as it is.
pub data Wrapped : Type 0 where
  unwrapped : Value → Wrapped
  wraps_nothing : Wrapped
  wraps : Value → Wrapped

unfoldable pub wrap : Value → Wrapped
wrap undefined = wraps_nothing
wrap null = wraps_nothing
wrap (primitive p) = unwrapped (primitive p)
wrap (object o) = wraps (object o)
wrap (function f) = wraps (function f)

-- What a read gives: a value as it is, one of the fixed answers, or a new proxy, over an object of
-- the target or over an empty function, with its path.
pub data Got : Type 0 where
  plain : Value → Got
  empty_text_function object_text_function zero_function : Got
  length_or_zero constructor_or_object prototype_or_empty : Option Value → Got
  proxy_over : Value → Text → Got
  proxy_empty : Text → Got

-- `name || '?'`
abbrev pub path_or_mark : Option Text → Text
path_or_mark none = b'?' ∷ []
path_or_mark (some []) = b'?' ∷ []
path_or_mark (some (c ∷ s)) = c ∷ s

-- `String(prop)`; a symbol's text is left open.
abbrev pub key_text : (ℕ → Text) → Key → Text
key_text describe (named k) = k
key_text describe to_primitive = codes "Symbol(Symbol.toPrimitive)"
key_text describe iterator = codes "Symbol(Symbol.iterator)"
key_text describe (symbol n) = describe n

abbrev pub is_name : Key → Text → Bool
is_name (named k) name = same k name
is_name to_primitive name = false
is_name iterator name = false
is_name (symbol n) name = false

module _ (describe : ℕ → Text) where
  abbrev pub step : Target → Key → Text
  step t k = path_or_mark t.path ++ (b'.' ∷ key_text describe k)

  abbrev pub found : Target → Key → Option Value → Got
  found t k none = proxy_empty (step t k)
  found t k (some (object o)) = proxy_over (object o) (step t k)
  found t k (some v) = plain v

  -- The tests on the name, in the order of the source.
  abbrev pub get_named : Target → Key → Got
  get_named t k =
      if is_name k (codes "then")
      then plain undefined
      else if is_name k (codes "toString")
      then object_text_function
      else if is_name k (codes "valueOf")
      then zero_function
      else if is_name k (codes "length")
      then length_or_zero (t.lookup k)
      else if is_name k (codes "constructor")
      then constructor_or_object (t.lookup k)
      else if is_name k (codes "prototype")
      then prototype_or_empty (t.lookup k)
      else found t k (t.lookup k)

  unfoldable pub get : Target → Key → Got
  unfolding same
  get t to_primitive = empty_text_function
  get t iterator = plain undefined
  get t (named k) = get_named t (named k)
  get t (symbol n) = get_named t (symbol n)

-- The `has` trap.
unfoldable pub has : Target → Key → Bool
has t k = true

-- The `set` trap over the own properties of an object: a write to a proxy over a function is
-- dropped, and the trap always succeeds.
unfoldable pub set : Bool → Text → Value → Dict Value → Dict Value × Bool
set is_function k v props = if is_function then (props, true) else (put k v props, true)

-- The `apply` and `construct` traps: `attempt` is the call of the target, `none` if it throws.
unfoldable pub apply : Bool → Option Value → Got
apply false attempt = proxy_empty (b'?' ∷ [])
apply true none = proxy_empty (b'?' ∷ [])
apply true (some v) = plain v
