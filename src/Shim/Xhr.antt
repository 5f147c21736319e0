-- ===== src/Shim/Xhr.antt =====
-- `FakeXMLHttpRequest` of js/hybrid-fake-dom.js, without what it prints on the debug stream, and
-- the accessor that catches a replacement of `open`.
pub mod Trace
pub mod Headers
mod Tests
use ttlive_cpp.Prelude.{
  ℕ, ◌==◌, Bool, true, false, List, [], ◌∷◌, ◌++◌, Option, none, some, if◌then◌else◌, map, codes,
}
use ttlive_cpp.Js.Text.{Text, join}
use ttlive_cpp.Js.Object.{Dict, own, assign}
use ttlive_cpp.Shim.Events.{Registry}
use ttlive_cpp.Shim.Storage.{Item, found_or_null, keys}
use ttlive_cpp.Shim.Headers.{Lowering}

-- The fields that the methods read or write. A handler is known by its identity, a number; those
-- for `error`, `timeout`, `progress` and `loadstart` are never called.
pub record Xhr : Type 0 where
  pub ready_state : ℕ
  pub response : Text
  pub response_text : Text
  pub status : ℕ
  pub status_text : Text
  pub headers : Dict Text
  pub response_headers : Dict Text
  pub method : Text
  pub url : Text
  pub is_async : Bool
  pub sent : Bool
  pub onreadystatechange : Option ℕ
  pub onload : Option ℕ
  pub onloadend : Option ℕ
  pub onabort : Option ℕ
  pub listeners : Registry

-- `UNSENT` … `DONE`
abbrev pub unsent : ℕ
unsent = 0

abbrev pub opened : ℕ
opened = 1

abbrev pub headers_received : ℕ
headers_received = 2

abbrev pub loading : ℕ
loading = 3

abbrev pub done : ℕ
done = 4

unfoldable pub new_xhr : Xhr
new_xhr = record {
  ready_state = unsent;
  response = [];
  response_text = [];
  status = 0;
  status_text = [];
  headers = [];
  response_headers = [];
  method = codes "GET";
  url = [];
  is_async = true;
  sent = false;
  onreadystatechange = none;
  onload = none;
  onloadend = none;
  onabort = none;
  listeners = [];
}

-- The events that the class fires.
pub data Kind : Type 0 where
  readystatechange load loadend abort : Kind

abbrev pub name_of : Kind → Text
name_of readystatechange = codes "readystatechange"
name_of load = codes "load"
name_of loadend = codes "loadend"
name_of abort = codes "abort"

-- `this['on' + type]`
abbrev pub handler_of : Kind → Xhr → Option ℕ
handler_of readystatechange x = x.onreadystatechange
handler_of load x = x.onload
handler_of loadend x = x.onloadend
handler_of abort x = x.onabort

-- `this._listeners[type] || []`; none of the names is one of `Object.prototype`.
abbrev pub or_none : Option (List ℕ) → List ℕ
or_none none = []
or_none (some fns) = fns

abbrev pub listeners_of : Kind → Xhr → List ℕ
listeners_of k x = or_none (own (name_of k) x.listeners)

-- A request and what its handlers act on besides it.
pub record Session {ℓ} (W : Type ℓ) : Type ℓ where
  pub xhr : Xhr
  pub world : W

abbrev is_not_false : Option Bool → Bool
is_not_false none = true
is_not_false (some b) = b

abbrev pub with_xhr {ℓ} : {W : Type ℓ} → Session W → Xhr → Session W
with_xhr s x = record s { xhr = x }

abbrev pub as_sent : Xhr → Xhr
as_sent x = record x { sent = true; ready_state = headers_received }

abbrev pub as_answered : Xhr → Xhr
as_answered x = record x {
  ready_state = done;
  status = 200;
  status_text = codes "OK";
  response_text = codes "{}";
  response = codes "{}";
}

-- `call` is what calling a function does, the request included; an exception is swallowed.
module _ {ℓ} {W : Type ℓ} (call : ℕ → Session W → Session W) where
  abbrev pub call_handler : Option ℕ → Session W → Session W
  call_handler none s = s
  call_handler (some fn) s = call fn s

  unfoldable pub call_each : List ℕ → Session W → Session W
  call_each [] s = s
  call_each (fn ∷ fns) s = call_each fns (call fn s)

  unfoldable pub fire_event : Kind → Session W → Session W
  fire_event k s =
      let t : Session W = call_handler (handler_of k s.xhr) s in call_each (listeners_of k t.xhr) t

  -- The handler is called here, and once more by `fire_event`.
  unfoldable pub change_state : Session W → Session W
  change_state s = fire_event readystatechange (call_handler s.xhr.onreadystatechange s)

  -- `user` and `password` are not read.
  unfoldable pub open_request : Text → Text → Option Bool → Session W → Session W
  open_request method url is_async s = change_state (
      with_xhr s (record s.xhr {
        method = method;
        url = url;
        is_async = is_not_false is_async;
        ready_state = opened;
      }))

  -- The body is only printed.
  unfoldable pub send : Session W → Session W
  send s =
      let sending : Session W = change_state (with_xhr s (as_sent s.xhr)) in
      let answered : Session W = change_state (with_xhr sending (as_answered sending.xhr)) in
      fire_event loadend (fire_event load answered)

  unfoldable pub abort_request : Session W → Session W
  abort_request s = fire_event abort (with_xhr s (record s.xhr { ready_state = unsent }))

module _ (l : Lowering) where
  unfoldable pub set_request_header : Text → Text → Xhr → Xhr
  set_request_header name value x = record x { headers = assign (l.to_lower name) value x.headers }

  unfoldable pub get_response_header : Text → Xhr → Item
  get_response_header name x =
      found_or_null (l.to_lower name) (own (l.to_lower name) x.response_headers)

abbrev text_or_empty : Option Text → Text
text_or_empty none = []
text_or_empty (some v) = v

header_line : Dict Text → Text → Text
header_line h k = k ++ (codes ": " ++ text_or_empty (own k h))

unfoldable pub get_all_response_headers : Xhr → Text
unfolding header_line
get_all_response_headers x =
    join (b'\r' ∷ b'\n' ∷ []) (map (header_line x.response_headers) (keys x.response_headers))

-- The accessor installed over `open` on the prototype: the function in `_openFn`, if one was
-- stored, else the original.
pub data OpenFn : Type 0 where
  original : OpenFn
  replaced : ℕ → OpenFn

unfoldable pub current_open : Option ℕ → OpenFn
current_open none = original
current_open (some fn) = replaced fn

unfoldable pub replace_open : ℕ → Option ℕ → Option ℕ
replace_open fn _ = some fn
