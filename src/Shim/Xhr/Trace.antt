-- ===== src/Shim/Xhr/Trace.antt =====
-- The calls that a request makes, seen by handlers that only record them.
use mathlib.Core.List.{append_assoc, append-nil}
use ttlive_cpp.Prelude.{ℕ, ◌≡◌, refl, ap, ◌∙◌, sym, List, [], ◌∷◌, ◌++◌, Option, none, some, map}
use ttlive_cpp.Shim.Xhr.{
  Xhr, Session, Kind, readystatechange, load, loadend, handler_of, listeners_of, call_handler,
  call_each, fire_event, change_state, send, with_xhr, as_sent, as_answered,
}

-- A call as it is recorded: the function, and `readyState` when it runs.
abbrev pub Log : Type 0
Log = List (ℕ × ℕ)

abbrev pub watch : ℕ → Session Log → Session Log
watch fn s = record s { world = s.world ++ ((fn, s.xhr.ready_state) ∷ []) }

abbrev pub handler_calls : Option ℕ → ℕ → Log
handler_calls none state = []
handler_calls (some fn) state = (fn, state) ∷ []

abbrev pub listener_calls : List ℕ → ℕ → Log
listener_calls fns state = map (λ fn. (fn, state)) fns

-- What `_fireEvent` records: the handler, then the listeners in their order.
abbrev pub event_calls : Kind → Xhr → Log
event_calls k x =
    handler_calls (handler_of k x) x.ready_state ++ listener_calls (listeners_of k x) x.ready_state

-- What `_changeState` records: the handler twice, then the listeners.
abbrev pub change_calls : Xhr → Log
change_calls x = handler_calls x.onreadystatechange x.ready_state ++ event_calls readystatechange x

abbrev pub logged : Session Log → Log → Session Log
logged s l = record s { world = s.world ++ l }

call_handler-watch :
    (h : Option ℕ) (s : Session Log)
    → call_handler watch h s ≡ logged s (handler_calls h s.xhr.ready_state)
call_handler-watch none s = ap (λ (w : Log). record s { world = w }) (sym (append-nil s.world))
call_handler-watch (some fn) s = refl

call_each-watch :
    (fns : List ℕ) (s : Session Log)
    → call_each watch fns s ≡ logged s (listener_calls fns s.xhr.ready_state)
unfolding call_each
call_each-watch [] s = ap (λ (w : Log). record s { world = w }) (sym (append-nil s.world))
call_each-watch (fn ∷ fns) s =
    call_each-watch fns (watch fn s)
    ∙ ap (λ (w : Log). record s { world = w })
        (append_assoc s.world ((fn, s.xhr.ready_state) ∷ []) (listener_calls fns s.xhr.ready_state))

logged-logged : (s : Session Log) (k l : Log) → logged (logged s k) l ≡ logged s (k ++ l)
logged-logged s k l = ap (λ (w : Log). record s { world = w }) (append_assoc s.world k l)

fire_event-watch :
    (k : Kind) (s : Session Log) → fire_event watch k s ≡ logged s (event_calls k s.xhr)
unfolding fire_event
fire_event-watch k s = rw (call_handler-watch (handler_of k s.xhr) s) (
    call_each-watch (listeners_of k s.xhr)
      (logged s (handler_calls (handler_of k s.xhr) s.xhr.ready_state))
    ∙ logged-logged s (handler_calls (handler_of k s.xhr) s.xhr.ready_state)
        (listener_calls (listeners_of k s.xhr) s.xhr.ready_state))

change_state-watch : (s : Session Log) → change_state watch s ≡ logged s (change_calls s.xhr)
unfolding change_state
change_state-watch s = rw (call_handler-watch s.xhr.onreadystatechange s) (
    fire_event-watch readystatechange
      (logged s (handler_calls s.xhr.onreadystatechange s.xhr.ready_state))
    ∙ logged-logged s (handler_calls s.xhr.onreadystatechange s.xhr.ready_state)
        (event_calls readystatechange s.xhr))

-- `send` under handlers that only record: the request ends in state 4 with status 200 and the
-- body `{}`, state 3 is never seen, the `readystatechange` handler runs twice in each of the states
-- 2 and 4, and `load` and `loadend` come last.
pub send-watch :
    (s : Session Log)
    → send watch s ≡ record {
      xhr = as_answered (as_sent s.xhr);
      world =
          s.world
          ++ (change_calls (as_sent s.xhr)
              ++ (change_calls (as_answered (as_sent s.xhr))
                  ++ (event_calls load (as_answered (as_sent s.xhr))
                      ++ event_calls loadend (as_answered (as_sent s.xhr)))));
    }
unfolding send
send-watch s =
    let x : Xhr = as_sent s.xhr in
    let y : Xhr = as_answered x in
    let sending : Session Log = with_xhr s x in
    let answered : Session Log = record { xhr = y; world = s.world ++ change_calls x } in
    let changed : Session Log = logged answered (change_calls y) in
    let loaded : Session Log = logged changed (event_calls load y) in
    rw
      (
        change_state-watch sending,
        change_state-watch answered,
        fire_event-watch load changed,
        fire_event-watch loadend loaded,
      )
      (ap (λ (w : Log). record { xhr = y; world = w }) (simp append_assoc))
