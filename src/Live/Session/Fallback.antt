-- ===== src/Live/Session/Fallback.antt =====
-- When the socket is given up for polling, and how long the client waits before it connects again.
use ttlive_cpp.Prelude.{
  ℕ, suc, ◌+◌, ◌<◌, ◌≡◌, ◌≢◌, refl, ◌∙◌, inl, inr, List, [], ◌∷◌, true, false, not, ◌||◌,
  if◌then◌else◌, ltb, leb, arith, All, length, Bool-cases,
}
use ttlive_cpp.Live.Session.{
  goes_on, handshake_failed, Progress, returned, still_running, Reconnect, Round,
  max_handshake_fails, or_old, run_websocket_with_reconnect,
}

-- The loop does not fall back to polling, and every wait is the short one.
unfoldable pub Persists : Progress × List ℕ → Type 0
Persists r = (r.0 ≢ returned false) × All (λ w. w ≡ 300) r.1

-- A round in which the handshake fails and nobody asks to stop.
abbrev pub IsFailing : Round → Type 0
IsFailing r =
    (r.result ≡ handshake_failed)
    × ((goes_on r.before ≡ true)
        × ((goes_on r.behind ≡ true) × ((not r.rested.running || r.rested.stop_requested) ≡ false)))

fails_once :
    (r : Round) (rs : List Round) (st : Reconnect)
    → IsFailing r
    → st.ever_connected ≡ true
    → (run_websocket_with_reconnect true (r ∷ rs) st).0 ≡ (
        if leb max_handshake_fails (suc st.fails)
        then returned false
        else (run_websocket_with_reconnect true rs (record {
          cur = or_old r.fetched st.cur;
          fails = suc st.fails;
          ever_connected = true;
        })).0)
unfolding run_websocket_with_reconnect
fails_once r rs st (fails, (before, (behind, rested))) ever =
    elim (Bool-cases (leb max_handshake_fails (suc st.fails))) [
      | inl full ↦ rw (before, fails, ever, full)
      | inr more ↦ rw (before, fails, ever, more, behind, rested)
    ]

-- A client that was connected before gives up the socket at the sixth handshake in a row that fails,
-- counted with the failures before, and not earlier.
pub six_failures :
    (rs : List Round) (st : Reconnect)
    → All IsFailing rs
    → st.ever_connected ≡ true
    → st.fails < max_handshake_fails
    → (run_websocket_with_reconnect true rs st).0
      ≡ (if ltb (st.fails + length rs) max_handshake_fails then still_running else returned false)
six_failures [] st h ever few =
    let below : ltb (st.fails + length {A = Round} []) max_handshake_fails ≡ true = ground arith in
    rw below (unfold run_websocket_with_reconnect in refl)
six_failures (r ∷ rs) st h ever few =
    fails_once r rs st h.0 ever ∙ elim (Bool-cases (leb max_handshake_fails (suc st.fails))) [
      | inl full ↦ ground arith
      | inr more ↦ rw more (
          six_failures rs
            (record { cur = or_old r.fetched st.cur; fails = suc st.fails; ever_connected = true })
            h.1 refl (ground arith)
          ∙ ground arith)
    ]
