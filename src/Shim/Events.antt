-- ===== src/Shim/Events.antt =====
-- `FakeEvent` and the listener registries of js/hybrid-fake-dom.js: `FakeEventTarget`, and the same
-- three functions on elements, on the document and on the window. A listener is known by its
-- identity, a number.
pub mod Laws
mod Tests
use ttlive_cpp.Prelude.{
  ℕ, ◌==◌, Bool, true, false, not, List, [], ◌∷◌, ◌++◌, Option, none, some, if◌then◌else◌, keep,
}
use ttlive_cpp.Js.Text.{Text}
use ttlive_cpp.Js.Object.{Dict, own, put, is_inherited}

-- The fields that the constructor sets from its arguments, and the one that `preventDefault`
-- changes; `target` and `currentTarget` stay `null`, and `isTrusted` is false.
pub record Event : Type 0 where
  pub type : Text
  pub bubbles : Bool
  pub cancelable : Bool
  pub default_prevented : Bool

-- `(opts && opts.bubbles) || false`
pub record EventOptions : Type 0 where
  pub bubbles : Bool
  pub cancelable : Bool

unfoldable pub new_event : Text → Option EventOptions → Event
new_event type none = record {
  type = type;
  bubbles = false;
  cancelable = false;
  default_prevented = false;
}
new_event type (some o) = record {
  type = type;
  bubbles = o.bubbles;
  cancelable = o.cancelable;
  default_prevented = false;
}

unfoldable pub prevent_default : Event → Event
prevent_default e = record e { default_prevented = true }

-- `stopPropagation` and `stopImmediatePropagation` have empty bodies.
unfoldable pub stop_propagation : Event → Event
stop_propagation e = e

-- A call that returns, or one that throws a TypeError.
pub data Outcome {ℓ} (A : Type ℓ) : Type ℓ where
  returned : A → Outcome A
  type_error : Outcome A

abbrev pub Registry : Type 0
Registry = Dict (List ℕ)

-- `_listeners[type] || []`. A name of `Object.prototype` finds a member of it, which is no array:
-- the method called on it (`push`, `filter`, `forEach`) is missing, and the call throws.
unfoldable pub listeners_at : Text → Registry → Outcome (List ℕ)
listeners_at type r = elim (own type r) [
  | some fns ↦ returned fns
  | none ↦ if is_inherited type then type_error else returned []
]

abbrev pub stored_as : Text → Registry → (List ℕ → List ℕ) → Outcome (List ℕ) → Outcome Registry
stored_as type r change (returned fns) = returned (put type (change fns) r)
stored_as type r change type_error = type_error

unfoldable pub add_listener : Text → ℕ → Registry → Outcome Registry
add_listener type fn r = stored_as type r (λ fns. fns ++ (fn ∷ [])) (listeners_at type r)

unfoldable pub remove_listener : Text → ℕ → Registry → Outcome Registry
remove_listener type fn r = stored_as type r (keep (λ f. not (f == fn))) (listeners_at type r)

-- `dispatchEvent` over a state `S` that holds a registry. `call` is what calling a listener does
-- to the state; whether it throws does not matter, since the call stands in a `try` with an empty
-- handler. `forEach` goes over the array as it was: `push` adds behind the end that `forEach` has
-- fixed, and `filter` makes a new array.
module _ {ℓ} {S : Type ℓ} (registry : S → Registry) (call : ℕ → Event → S → S) where
  unfoldable pub call_each : List ℕ → Event → S → S
  call_each [] e s = s
  call_each (fn ∷ fns) e s = call_each fns e (call fn e s)

  abbrev pub dispatched : Event → S → Outcome (List ℕ) → Outcome (Bool × S)
  dispatched e s (returned fns) = returned (true, call_each fns e s)
  dispatched e s type_error = type_error

  unfoldable pub dispatch_event : Event → S → Outcome (Bool × S)
  dispatch_event e s = dispatched e s (listeners_at e.type (registry s))
