-- ===== src/Live/Session/Tests.antt =====
-- Failing handshakes, a sleep, and a polling loop.
use ttlive_cpp.Prelude.{
  ◌≡◌, refl, ◌+◌, ◌≤◌, [], ◌∷◌, true, false, none, some, All, arith, codes, ltb,
}
use ttlive_cpp.Live.Session.{
  Flags, Fetch, Round, Reconnect, handshake_failed, returned, run_websocket_with_reconnect,
  interruptible_sleep, poll_loop, poll_start,
}
use ttlive_cpp.Live.Session.Fallback.{six_failures}
use ttlive_cpp.Live.Session.Polling.{sum, interruptible_sleep-sum, IsUsable, poll_loop-IsUsable}

abbrev up : Flags
up = record { running = true; stop_requested = false; live_ended = false }

abbrev fetch : Fetch
fetch = record { cursor = codes "c1"; internal_ext = []; fetch_interval = 0 }

abbrev failing : Round
failing = record {
  before = up;
  result = handshake_failed;
  behind = up;
  rested = up;
  fetched = none;
}

abbrev connected_once : Reconnect
connected_once = record { cur = fetch; fails = 4; ever_connected = true }

six_failures_case :
    (run_websocket_with_reconnect true (failing ∷ failing ∷ []) connected_once).0 ≡ returned false
six_failures_case =
    six_failures (failing ∷ failing ∷ []) connected_once
      ((refl, (refl, (refl, refl))), ((refl, (refl, (refl, refl))), tt)) refl (omega arith)

interruptible_sleep-sum_case :
    (sum (interruptible_sleep (λ t. true) 300) ≡ 300)
    × (All (λ t. t ≤ 50) (interruptible_sleep (λ t. ltb t 120) 300)
        × (sum (interruptible_sleep (λ t. ltb t 120) 300) ≤ 120 + 50))
interruptible_sleep-sum_case =
    interruptible_sleep-sum (λ t. ltb t 120) 300 120 (λ t h. ground arith)

poll_loop-IsUsable_case :
    All IsUsable
      (poll_loop
        (record { before = up; rested = up; batch = none }
          ∷ record { before = up; rested = up; batch = some (record fetch { cursor = [] }, false) }
          ∷ [])
        (poll_start fetch)).1
poll_loop-IsUsable_case =
    poll_loop-IsUsable
      (record { before = up; rested = up; batch = none }
        ∷ record { before = up; rested = up; batch = some (record fetch { cursor = [] }, false) }
        ∷ [])
      fetch refl
