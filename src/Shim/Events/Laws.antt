-- ===== src/Shim/Events/Laws.antt =====
-- Who is called by `dispatchEvent`, and in which order.
use mathlib.Core.List.{foldl}
use ttlive_cpp.Prelude.{
  ℕ, ◌==◌, ◌≡◌, refl, ◌∙◌, true, not, List, [], ◌∷◌, ◌++◌, if◌then◌else◌, keep, arith, inl, inr,
  Bool-cases,
}
use ttlive_cpp.Js.Text.{Text, same, same_iff}
use ttlive_cpp.Js.Object.{own, put, own-put, is_inherited}
use ttlive_cpp.Shim.Events.{
  Event, Registry, Outcome, returned, type_error, listeners_at, stored_as, add_listener,
  remove_listener, call_each, dispatch_event,
}

listeners_at-put :
    (type other : Text) (fns : List ℕ) (r : Registry)
    → listeners_at other (put type fns r)
      ≡ (if same type other then returned fns else listeners_at other r)
unfolding listeners_at
listeners_at-put type other fns r = ground (arith, own-put type other fns r)

foldl-call_each {ℓ} :
    {S : Type ℓ} (registry : S → Registry) (call : ℕ → Event → S → S) (e : Event) (fns : List ℕ)
    (s : S)
    → call_each registry call fns e s ≡ foldl (λ t fn. call fn e t) s fns
unfolding call_each
foldl-call_each registry call e [] s = refl
foldl-call_each registry call e (fn ∷ fns) s = foldl-call_each registry call e fns (call fn e s)

-- `dispatchEvent` calls the listeners registered when it starts, in the order of registration and
-- each one once for each registration, whatever the calls do to the registry; it answers true,
-- also where a listener has prevented the default.
pub dispatch_event-calls {ℓ} :
    {S : Type ℓ} (registry : S → Registry) (call : ℕ → Event → S → S) (e : Event) (s : S)
    (fns : List ℕ)
    → listeners_at e.type (registry s) ≡ returned fns
    → dispatch_event registry call e s ≡ returned (true, foldl (λ t fn. call fn e t) s fns)
unfolding dispatch_event
dispatch_event-calls registry call e s fns h = rw h (rw (foldl-call_each registry call e fns s))

-- A history of registrations and removals; one that throws leaves the registry as it was.
pub data Change : Type 0 where
  adds removes : Text → ℕ → Change

abbrev kept : Registry → Outcome Registry → Registry
kept r (returned r') = r'
kept r type_error = r

unfoldable pub apply : Registry → Change → Registry
apply r (adds type fn) = kept r (add_listener type fn r)
apply r (removes type fn) = kept r (remove_listener type fn r)

-- What a history leaves of the list of one type, with no registry in between.
unfoldable pub expected : Text → List ℕ → Change → List ℕ
expected type fns (adds t fn) = if same t type then fns ++ (fn ∷ []) else fns
expected type fns (removes t fn) = if same t type then keep (λ f. not (f == fn)) fns else fns

-- The lists of a registry that the functions made: those of `expected` for a usable type, and an
-- exception for a type spelled like a member of `Object.prototype`.
abbrev pub Shows : Text → Registry → List ℕ → Type 0
Shows type r fns = listeners_at type r ≡ (if is_inherited type then type_error else returned fns)

change-Shows :
    (t : Text) (r : Registry) (change : List ℕ → List ℕ) (f : Text → List ℕ)
    → ((u : Text) → Shows u r (f u))
    → (type : Text)
    → Shows type
        (kept r (stored_as t r change (listeners_at t r)))
        (if same t type then change (f type) else f type)
change-Shows t r change f h type = elim (Bool-cases (is_inherited t)) [
  | inl bad ↦
      let thrown : listeners_at t r ≡ type_error = h t ∙ rw bad in
      rw thrown (h type ∙ ground (arith, same_iff t type))
  | inr good ↦
      let held : listeners_at t r ≡ returned (f t) = h t ∙ rw good in
      rw held (listeners_at-put t type (change (f t)) r ∙ ground (arith, same_iff t type, h type))
]

apply-Shows :
    (c : Change) (r : Registry) (f : Text → List ℕ)
    → ((u : Text) → Shows u r (f u))
    → (type : Text) → Shows type (apply r c) (expected type (f type) c)
unfolding apply expected add_listener remove_listener
apply-Shows (adds t fn) r f h type = change-Shows t r (λ old. old ++ (fn ∷ [])) f h type
apply-Shows (removes t fn) r f h type = change-Shows t r (keep (λ g. not (g == fn))) f h type

history-Shows :
    (cs : List Change) (r : Registry) (f : Text → List ℕ)
    → ((u : Text) → Shows u r (f u))
    → (type : Text) → Shows type (foldl apply r cs) (foldl (expected type) (f type) cs)
history-Shows [] r f h type = h type
history-Shows (c ∷ cs) r f h type =
    history-Shows cs (apply r c) (λ u. expected u (f u) c) (apply-Shows c r f h) type

-- After any history on a new target the list of a type holds what was added and not removed since,
-- in the order of registration; a type spelled like a member of `Object.prototype` throws, always.
pub listeners_at-history :
    (cs : List Change) (type : Text) → Shows type (foldl apply [] cs) (foldl (expected type) [] cs)
listeners_at-history cs type =
    history-Shows cs [] (λ _. []) (λ u. unfold listeners_at own in refl) type
