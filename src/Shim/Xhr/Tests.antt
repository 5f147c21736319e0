-- ===== src/Shim/Xhr/Tests.antt =====
-- Requests with concrete handlers and headers.
use ttlive_cpp.Prelude.{◌≡◌, ◌∷◌, [], codes, some, none}
use ttlive_cpp.Js.Text.{same}
use ttlive_cpp.Js.Object.{own}
use ttlive_cpp.Shim.Headers.Ascii.{ascii_only}
use ttlive_cpp.Shim.Xhr.{Xhr, send, new_xhr, as_answered, as_sent}
use ttlive_cpp.Shim.Xhr.Trace.{watch, send-watch}
use ttlive_cpp.Shim.Xhr.Headers.{own-set_all, set_all, x_bogus_upper}

-- The request that the signer makes, with a handler of each kind and a listener.
abbrev ready : Xhr
ready = record new_xhr {
  ready_state = 1;
  onreadystatechange = some 7;
  onload = some 8;
  listeners = (codes "readystatechange", 9 ∷ []) ∷ [];
}

send-watch_example : send watch (record { xhr = ready; world = [] }) ≡ (record {
  xhr = as_answered (as_sent ready);
  world = (7, 2) ∷ (7, 2) ∷ (9, 2) ∷ (7, 4) ∷ (7, 4) ∷ (9, 4) ∷ (8, 4) ∷ [];
})
unfolding new_xhr own same
send-watch_example = send-watch (record { xhr = ready; world = [] })

own-set_all_case :
    own
      (codes "X-Bogus")
      (set_all ascii_only
        ((codes "X-Bogus", codes "DFSzs") ∷ (codes "X-Gnarly", codes "M") ∷ [])
        new_xhr).headers
    ≡ none
unfolding new_xhr own
own-set_all_case =
    own-set_all ascii_only ((codes "X-Bogus", codes "DFSzs") ∷ (codes "X-Gnarly", codes "M") ∷ [])
      (codes "X-Bogus") new_xhr (x_bogus_upper ascii_only)
