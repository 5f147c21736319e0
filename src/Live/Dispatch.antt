-- ===== src/Live/Dispatch.antt =====
-- The delivery of messages in src/client.cpp: registration of callbacks, `emit`, `dispatch_message`
-- and `process_fetch_result`. A callback is known by its identity. Registering one while events are
-- delivered is left out.
pub mod Once
pub mod Dual
pub mod Ended
mod Tests
use ttlive_cpp.Prelude.{
  ℕ, List, [], ◌∷◌, ◌++◌, Bool, true, false, not, ◌||◌, ◌&&◌, if◌then◌else◌, codes,
}
use ttlive_cpp.Prelude.Int.{ℤ, pos, same_int}
use ttlive_cpp.Js.Text.{Text}
use ttlive_cpp.Live.Event.{EventType, live_end, Event, new_event, same_type}
use ttlive_cpp.Live.Parser.{Classes, parse_event}
use ttlive_cpp.Live.Seen.{Seen, contains, remember_id}

-- `handlers` and `any_handlers`; a type without an entry has no callbacks.
pub record Handlers : Type 0 where
  pub any : List ℕ
  pub by_type : EventType → List ℕ

unfoldable pub on : EventType → ℕ → Handlers → Handlers
on type cb h = record h {
  by_type = λ t. if same_type type t then h.by_type t ++ (cb ∷ []) else h.by_type t;
}

unfoldable pub on_any : ℕ → Handlers → Handlers
on_any cb h = record h { any = h.any ++ (cb ∷ []) }

-- `BaseProtoMessage`, the fields that are read.
pub record Message : Type 0 where
  pub method : Text
  pub payload : List ℕ
  pub msg_id : ℤ

-- The three flags, and what the callbacks and the debug sink act on.
pub record Shared {ℓ} (W : Type ℓ) : Type ℓ where
  pub running : Bool
  pub stop_requested : Bool
  pub live_ended : Bool
  pub world : W

pub record Client {ℓ} (W : Type ℓ) : Type ℓ where
  pub seen : Seen
  pub shared : Shared W

-- The callbacks and the sink of a program that uses the client. A callback answers whether it has
-- called `disconnect()`; without a sink, `sink` leaves the world alone.
pub record Program {ℓ} (W : Type ℓ) : Type ℓ where
  pub classes : Classes
  pub handlers : Handlers
  pub call : ℕ → Event → W → W × Bool
  pub sink : Text → List ℕ → W → W

module _ {ℓ} {W : Type ℓ} (p : Program W) where
  -- A call, with what `disconnect` does to the flags.
  abbrev pub call_one : ℕ → Event → Shared W → Shared W
  call_one cb ev s =
      let (w, disconnects) = p.call cb ev s.world in
      record s {
        world = w;
        running = not disconnects && s.running;
        stop_requested = disconnects || s.stop_requested;
      }

  unfoldable pub call_each : List ℕ → Event → Shared W → Shared W
  call_each [] ev s = s
  call_each (cb ∷ cbs) ev s = call_each cbs ev (call_one cb ev s)

  unfoldable pub emit : Event → Shared W → Shared W
  emit ev s = call_each (p.handlers.by_type ev.type) ev (call_each p.handlers.any ev s)

  abbrev pub event_of : Message → Event
  event_of m = (parse_event p.classes m.method m.payload (record new_event { msg_id = m.msg_id })).1

  -- The part of `dispatch_message` behind the test of the id.
  unfoldable pub deliver : Message → Shared W → Shared W × Bool
  deliver m s =
      let ev = event_of m in
      let s = emit ev (record s { world = p.sink (codes "msg:" ++ m.method) m.payload s.world }) in
      if same_type ev.type live_end then (record s { live_ended = true }, true) else (s, false)

  abbrev delivered_to : Client W → Shared W × Bool → Client W × Bool
  delivered_to cl (s, ended) = (record cl { shared = s }, ended)

  unfoldable pub dispatch_message : Message → Client W → Client W × Bool
  dispatch_message m cl =
      if same_int m.msg_id (pos 0)
      then delivered_to cl (deliver m cl.shared)
      else if contains m.msg_id cl.seen.ids
      then (cl, false)
      else delivered_to (record cl { seen = remember_id m.msg_id cl.seen }) (deliver m cl.shared)

  -- The loop of `process_fetch_result` over the messages, with `ended` so far.
  unfoldable pub process_messages : List Message → Bool → Client W → Client W × Bool
  process_messages [] ended cl = (cl, ended)
  process_messages (m ∷ ms) ended cl =
      let (cl, ends) = dispatch_message m cl in process_messages ms (ends || ended) cl

  unfoldable pub process_fetch_result : List Message → Client W → Client W × Bool
  process_fetch_result ms cl = process_messages ms false cl
