-- ===== src/Live/Run/Tests.antt =====
-- A run that falls back to polling, and runs in which a callback throws.
use ttlive_cpp.Prelude.{◌≡◌, refl, [], ◌∷◌, true, false, some, none}
use ttlive_cpp.Prelude.Int.{pos, same_int}
use ttlive_cpp.Live.Run.{
  Options, Answers, emits_connect, emits_disconnect, polls, socket, run, steps, tear_down,
  transports, resolve_room, live_check,
}
use ttlive_cpp.Live.Run.Order.{IsSession, is_connect, run-IsSession}

abbrev socket_only : Options
socket_only = record {
  use_websocket = true;
  use_polling = false;
  fetch_live_check = true;
  process_connect_events = false;
  room_id_override = pos 0;
}

abbrev no_socket : Answers
no_socket = record {
  from_html = none;
  from_api = some (pos 42);
  is_live = some true;
  can_fetch = true;
  socket_handles = false;
  throws = λ x. false;
}

run-IsSession_example : IsSession true socket_only no_socket (run socket_only no_socket)
unfolding same_int
run-IsSession_example = run-IsSession socket_only no_socket (λ x. refl)

falls_back :
    (run socket_only no_socket).actions
    ≡ emits_connect ∷ socket true ∷ polls ∷ emits_disconnect ∷ []
unfolding run resolve_room live_check transports steps tear_down same_int
falls_back = refl

-- A callback for `Connect` that throws leaves the flag set, and `Disconnect` is not told.
abbrev throws_first : Answers
throws_first = record no_socket { throws = is_connect }

cut_short : (run socket_only throws_first).actions ≡ emits_connect ∷ []
unfolding run resolve_room live_check transports steps tear_down same_int
cut_short = refl

still_running : (run socket_only throws_first).running ≡ true
unfolding run resolve_room live_check transports steps tear_down same_int
still_running = refl
