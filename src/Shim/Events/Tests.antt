-- ===== src/Shim/Events/Tests.antt =====
-- Registries and a dispatch at concrete listeners.
use ttlive_cpp.Prelude.{ℕ, ◌≡◌, refl, ◌∷◌, ◌++◌, [], List, codes, true, false}
use ttlive_cpp.Js.Text.{same}
use ttlive_cpp.Js.Object.{own, is_inherited}
use mathlib.Core.List.{foldl}
use ttlive_cpp.Shim.Events.{Event, Registry, returned, dispatch_event, listeners_at}
use ttlive_cpp.Shim.Events.Laws.{
  expected, adds, removes, apply, dispatch_event-calls, listeners_at-history,
}

-- A page with a registry and a record of calls; the first listener empties the registry.
abbrev Page : Type 0
Page = Registry × List ℕ

abbrev call : ℕ → Event → Page → Page
call fn e (r, calls) = ([], calls ++ (fn ∷ []))

abbrev click : Event
click = record {
  type = codes "click";
  bubbles = false;
  cancelable = true;
  default_prevented = false;
}

abbrev page : Page
page = ((codes "click", 4 ∷ 9 ∷ 4 ∷ []) ∷ [], [])

dispatch_event-calls_case :
    dispatch_event (λ p. p.0) call click page ≡ returned (true, ([], 4 ∷ 9 ∷ 4 ∷ []))
unfolding listeners_at own same is_inherited
dispatch_event-calls_case = dispatch_event-calls (λ p. p.0) call click page (4 ∷ 9 ∷ 4 ∷ []) refl

listeners_at-history_example :
    listeners_at (codes "load") (
      foldl apply [] (
        adds (codes "load") 1
        ∷ adds (codes "load") 2
        ∷ adds (codes "error") 3
        ∷ removes (codes "load") 1
        ∷ []))
    ≡ returned (2 ∷ [])
unfolding is_inherited same expected
listeners_at-history_example =
    listeners_at-history
      (adds (codes "load") 1
        ∷ adds (codes "load") 2
        ∷ adds (codes "error") 3
        ∷ removes (codes "load") 1
        ∷ [])
      (codes "load")
