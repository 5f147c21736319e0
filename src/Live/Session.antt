-- ===== src/Live/Session.antt =====
-- The transports of src/client.cpp: `run_websocket_with_reconnect`, `interruptible_sleep` and
-- `poll_loop`. The other threads, the server and the clock are scripts: what each round of a loop
-- finds. A loop whose script is used up is still running.
pub mod Fallback
pub mod Polling
mod Tests
use ttlive_cpp.Prelude.{
  ℕ, zero, suc, ◌+◌, ◌-◌, ◌*◌, List, [], ◌∷◌, Bool, true, false, not, ◌||◌, ◌&&◌, Option, none,
  some, if◌then◌else◌, ltb, leb,
}
use ttlive_cpp.Js.Text.{Text}
use ttlive_cpp.Live.Event.{is_empty}

-- The flags as a loop reads them.
pub record Flags : Type 0 where
  pub running : Bool
  pub stop_requested : Bool
  pub live_ended : Bool

abbrev pub goes_on : Flags → Bool
goes_on f = f.running && not f.stop_requested && not f.live_ended

-- What a loop needs of a `ProtoMessageFetchResult`; the interval is the one the server asks for, 0
-- where it asks for none.
pub record Fetch : Type 0 where
  pub cursor : Text
  pub internal_ext : Text
  pub fetch_interval : ℕ

pub data WsResult : Type 0 where
  handshake_failed live_ended stopped dropped : WsResult

-- A loop has returned, or it goes on.
pub data Progress : Type 0 where
  returned : Bool → Progress
  still_running : Progress

-- The state of `run_websocket_with_reconnect`: `cur`, `consecutive_handshake_fails`, and the
-- client's `ws_ever_connected`.
pub record Reconnect : Type 0 where
  pub cur : Fetch
  pub fails : ℕ
  pub ever_connected : Bool

-- One round: the flags before and after the session, its result, the flags after the backoff, and
-- the fetch, which may throw.
pub record Round : Type 0 where
  pub before : Flags
  pub result : WsResult
  pub behind : Flags
  pub rested : Flags
  pub fetched : Option Fetch

abbrev pub max_handshake_fails : ℕ
max_handshake_fails = 6

abbrev pub min : ℕ → ℕ → ℕ
min a b = if leb a b then a else b

abbrev pub backoff : ℕ → ℕ
backoff fails = if ltb 0 fails then min (500 * fails) 5000 else 300

-- `ws_ever_connected` after a session.
abbrev pub connected_by : WsResult → Bool → Bool
connected_by handshake_failed ever = ever
connected_by live_ended ever = true
connected_by stopped ever = true
connected_by dropped ever = true

-- The `switch`: what it returns, or the count that it leaves. The count goes up only where a
-- fallback is allowed, since `&&` does not look at its second operand otherwise.
pub data Verdict : Type 0 where
  gives : Bool → Verdict
  counts : ℕ → Verdict

abbrev pub judge : Bool → Bool → ℕ → WsResult → Verdict
judge allow ever fails live_ended = gives true
judge allow ever fails stopped = gives true
judge allow ever fails dropped = counts 0
judge allow ever fails handshake_failed =
    if not ever && allow
    then gives false
    else if allow
    then (if leb max_handshake_fails (suc fails) then gives false else counts (suc fails))
    else counts fails

abbrev pub or_old : Option Fetch → Fetch → Fetch
or_old none old = old
or_old (some new) old = new

-- The loop with what it does after the round as `later`; the backoffs are recorded.
abbrev pub round_end :
    Round → Reconnect → Bool → (Reconnect → Progress × List ℕ) → Verdict → Progress × List ℕ
round_end r st ever later (gives b) = (returned b, [])
round_end r st ever later (counts fails) =
    let next : Reconnect = record {
      cur = or_old r.fetched st.cur;
      fails = fails;
      ever_connected = ever;
    } in
    let (progress, waits) = later next in
    if not (goes_on r.behind)
    then (returned true, [])
    else if not r.rested.running || r.rested.stop_requested
    then (returned true, backoff fails ∷ [])
    else (progress, backoff fails ∷ waits)

unfoldable pub run_websocket_with_reconnect : Bool → List Round → Reconnect → Progress × List ℕ
run_websocket_with_reconnect allow [] st = (still_running, [])
run_websocket_with_reconnect allow (r ∷ rs) st =
    let ever = connected_by r.result st.ever_connected in
    let rest =
      round_end r st ever (run_websocket_with_reconnect allow rs)
        (judge allow ever st.fails r.result) in
    if goes_on r.before then rest else (returned true, [])

-- `interruptible_sleep`: the slices that are slept, while `flags` tells at each test whether to go
-- on. `left` bounds the number of slices.
unfoldable pub sleep_slices : ℕ → (ℕ → Bool) → ℕ → ℕ → List ℕ
sleep_slices zero alive ms slept = []
sleep_slices (suc left) alive ms slept =
    let more = min 50 (ms - slept) ∷ sleep_slices left alive ms (slept + 50) in
    if ltb slept ms && alive slept then more else []

unfoldable pub interruptible_sleep : (ℕ → Bool) → ℕ → List ℕ
interruptible_sleep alive ms = sleep_slices ms alive ms 0

-- `poll_loop`: the rolling cursor, `internal_ext` and interval.
pub record Poll : Type 0 where
  pub cursor : Text
  pub internal_ext : Text
  pub interval_ms : ℕ

unfoldable pub poll_start : Fetch → Poll
poll_start f = record {
  cursor = f.cursor;
  internal_ext = f.internal_ext;
  interval_ms = if ltb 0 f.fetch_interval then f.fetch_interval else 1000;
}

-- One round: the flags at the loop's test and after the sleep, the fetch, which may throw, and
-- whether delivering its messages has ended the LIVE.
pub record PollRound : Type 0 where
  pub before : Flags
  pub rested : Flags
  pub batch : Option (Fetch × Bool)

abbrev pub keep_old : Text → Text → Text
keep_old [] old = old
keep_old (c ∷ new) old = c ∷ new

abbrev pub advance : Fetch → Poll → Poll
advance f p = record {
  cursor = keep_old f.cursor p.cursor;
  internal_ext = keep_old f.internal_ext p.internal_ext;
  interval_ms = if ltb 0 f.fetch_interval then f.fetch_interval else p.interval_ms;
}

-- The end of a round; `later` goes on with the loop.
abbrev pub poll_end : (Poll → Bool × List Poll) → Poll → Option (Fetch × Bool) → Bool × List Poll
poll_end later p none = later p
poll_end later p (some (f, ended)) =
    let (done, states) = later (advance f p) in if ended then (true, []) else (done, states)

-- Whether the loop has ended, and the state with which each fetch was made.
unfoldable pub poll_loop : List PollRound → Poll → Bool × List Poll
poll_loop [] p = (false, [])
poll_loop (r ∷ rs) p =
    let (done, states) = poll_end (poll_loop rs) p r.batch in
    if not (goes_on r.before)
    then (true, [])
    else if not (goes_on r.rested)
    then (true, [])
    else (done, p ∷ states)
