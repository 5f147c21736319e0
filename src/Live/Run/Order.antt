-- ===== src/Live/Run/Order.antt =====
-- When a run connects, what it then does, and what an exception leaves.
use ttlive_cpp.Prelude.{
  ◌≡◌, refl, sym, ap, ◌∙◌, Bool, true, false, not, ◌&&◌, ◌||◌, List, [], ◌∷◌, ◌++◌, Option, none,
  some, if◌then◌else◌, ℕ, ◌+◌,
}
use mathlib.Core.Path.{subst}
use ttlive_cpp.Prelude.Int.{ℤ, pos, same_int}
use ttlive_cpp.Live.Run.{
  Options, Answers, Action, emits_connect, emits_disconnect, delivers_backlog, polls, both, socket,
  Outcome, failed, tear_down, before, steps, or_zero, resolve_room, live_check, transports, checked,
  resolved, run,
}

-- Is a room id other than 0 known?
abbrev pub is_id : Option ℤ → Bool
is_id none = false
is_id (some id) = not (same_int id (pos 0))

abbrev is_yes : Option Bool → Bool
is_yes none = false
is_yes (some b) = b

-- What a run needs to connect: a room id from the options, the page or the interface, a live check that
-- passes or is not asked for, and a first fetch that works.
abbrev pub can_connect : Options → Answers → Bool
can_connect o a =
    (is_id (some o.room_id_override) || (is_id a.from_html || is_id a.from_api))
    && ((not o.fetch_live_check || is_yes a.is_live) && a.can_fetch)

live_by :
    (asked : Bool) (l : Option Bool)
    → is_yes (if asked then l else some true) ≡ (not asked || is_yes l)
live_by true l = refl
live_by false l = refl

swapped :
    (zero_id c : Bool) (x y z : Outcome)
    → x ≡ (if c then y else z)
    → (if zero_id then z else x) ≡ (if not zero_id && c then y else z)
swapped true c x y z e = refl
swapped false c x y z e = e

html_by :
    (api x : Option ℤ) (b : Bool)
    → same_int (or_zero x) (pos 0) ≡ b
    → is_id (if b then api else some (or_zero x)) ≡ (is_id x || is_id api)
unfolding same_int
html_by api none true e = refl
html_by api none false e = cc
html_by api (some id) true e = rw e refl
html_by api (some id) false e = rw e refl

room_by :
    (own : ℤ) (api x : Option ℤ) (b : Bool)
    → same_int own (pos 0) ≡ b
    → is_id
        (if not b then some own else if same_int (or_zero x) (pos 0) then api else some (or_zero x))
      ≡ (not b || (is_id x || is_id api))
room_by own api x true e = html_by api x (same_int (or_zero x) (pos 0)) refl
room_by own api x false e = rw e refl

-- The steps of a session that no exception cuts short, but for `Disconnect`.
abbrev session : Options → Answers → List Action
session o a =
    emits_connect
    ∷ ((if o.process_connect_events then delivers_backlog ∷ [] else []) ++ transports o a)

module _ (o : Options) (a : Answers) where
  checked-if :
      (l : Option Bool)
      → checked o a l ≡ (if is_yes l && a.can_fetch then steps a (session o a) else failed)
  checked-if none = refl
  checked-if (some false) = refl
  checked-if (some true) = refl

  live_check-yes : is_yes (live_check o a) ≡ (not o.fetch_live_check || is_yes a.is_live)
  unfolding live_check
  live_check-yes = live_by o.fetch_live_check a.is_live

  resolved-if :
      (x : Option ℤ)
      → resolved o a x ≡ (
          if is_id x && (is_yes (live_check o a) && a.can_fetch)
          then steps a (session o a)
          else failed)
  resolved-if none = refl
  resolved-if (some id) =
      swapped (same_int id (pos 0)) (is_yes (live_check o a) && a.can_fetch) _ _ _
        (checked-if (live_check o a))

  resolve_room-id :
      is_id (resolve_room o a)
      ≡ (is_id (some o.room_id_override) || (is_id a.from_html || is_id a.from_api))
  unfolding resolve_room
  resolve_room-id =
      room_by o.room_id_override a.from_api a.from_html (same_int o.room_id_override (pos 0)) refl

  run-can : run o a ≡ (if can_connect o a then steps a (session o a) else failed)
  unfolding run
  run-can =
      resolved-if (resolve_room o a)
      ∙ ap
          (λ b.
            if b && (is_yes (live_check o a) && a.can_fetch) then steps a (session o a) else failed)
          resolve_room-id
      ∙ ap
          (λ b.
            if (is_id (some o.room_id_override) || (is_id a.from_html || is_id a.from_api))
              && (b && a.can_fetch)
            then steps a (session o a)
            else failed)
          live_check-yes

abbrev pub is_connect : Action → Bool
is_connect emits_connect = true
is_connect _ = false

abbrev pub is_disconnect : Action → Bool
is_disconnect emits_disconnect = true
is_disconnect _ = false

abbrev pub is_backlog : Action → Bool
is_backlog delivers_backlog = true
is_backlog _ = false

-- The polling loop runs, the socket is tried; in dual mode both.
abbrev pub is_polling : Action → Bool
is_polling polls = true
is_polling both = true
is_polling _ = false

abbrev pub is_socket : Action → Bool
is_socket (socket falls_back) = true
is_socket both = true
is_socket _ = false

abbrev pub one_if : Bool → ℕ
one_if true = 1
one_if false = 0

abbrev pub times : (Action → Bool) → List Action → ℕ
times p [] = 0
times p (x ∷ xs) = one_if (p x) + times p xs

abbrev pub first_of : List Action → Option Action
first_of [] = none
first_of (x ∷ xs) = some x

abbrev pub last_of : List Action → Option Action
last_of [] = none
last_of (x ∷ []) = some x
last_of (x ∷ y ∷ xs) = last_of (y ∷ xs)

-- Without exceptions all steps are taken, and the flag is reset.
abbrev whole : List Action → Outcome
whole xs = record { actions = xs ++ (emits_disconnect ∷ []); threw = false; running = false }

steps-whole :
    (a : Answers) (xs : List Action) → ((x : Action) → a.throws x ≡ false) → steps a xs ≡ whole xs
unfolding steps tear_down
steps-whole a [] quiet = rw (quiet emits_disconnect) refl
steps-whole a (x ∷ xs) quiet = rw (quiet x) (ap (before x) (steps-whole a xs quiet))

abbrev pub is_second : (Action → Bool) → List Action → Bool
is_second f (x ∷ (y ∷ xs)) = f y
is_second f _ = false

-- What a session of a run comes to.
pub IsSession : Bool → Options → Answers → Outcome → Type 0
IsSession can o a r =
    (r.threw ≡ not can)
    × (r.running ≡ not can)
    × (first_of r.actions ≡ (if can then some emits_connect else none))
    × (last_of r.actions ≡ (if can then some emits_disconnect else none))
    × (is_second is_backlog r.actions ≡ (can && o.process_connect_events))
    × (times is_connect r.actions ≡ one_if can)
    × (times is_disconnect r.actions ≡ one_if can)
    × (times is_backlog r.actions ≡ one_if (can && o.process_connect_events))
    × (times is_socket r.actions ≡ one_if (can && o.use_websocket))
    × (times is_polling r.actions
        ≡ one_if (can && (o.use_polling || (not o.use_websocket || not a.socket_handles))))

session-IsSession :
    (w p c e i : Bool) (id : ℤ) (a : Answers) (h : Bool)
    → a.socket_handles ≡ h
    → IsSession true
        (record {
          use_websocket = w;
          use_polling = p;
          fetch_live_check = c;
          process_connect_events = e;
          room_id_override = id;
        })
        a
        (whole (
          session
            (record {
              use_websocket = w;
              use_polling = p;
              fetch_live_check = c;
              process_connect_events = e;
              room_id_override = id;
            })
            a))
unfolding IsSession transports
session-IsSession true true c true i id a h k =
    (refl, refl, refl, refl, refl, refl, refl, refl, refl, refl)
session-IsSession true true c false i id a h k =
    (refl, refl, refl, refl, refl, refl, refl, refl, refl, refl)
session-IsSession true false c true i id a true k =
    rw k (refl, refl, refl, refl, refl, refl, refl, refl, refl, refl)
session-IsSession true false c true i id a false k =
    rw k (refl, refl, refl, refl, refl, refl, refl, refl, refl, refl)
session-IsSession true false c false i id a true k =
    rw k (refl, refl, refl, refl, refl, refl, refl, refl, refl, refl)
session-IsSession true false c false i id a false k =
    rw k (refl, refl, refl, refl, refl, refl, refl, refl, refl, refl)
session-IsSession false true c true i id a h k =
    (refl, refl, refl, refl, refl, refl, refl, refl, refl, refl)
session-IsSession false true c false i id a h k =
    (refl, refl, refl, refl, refl, refl, refl, refl, refl, refl)
session-IsSession false false c true i id a h k =
    (refl, refl, refl, refl, refl, refl, refl, refl, refl, refl)
session-IsSession false false c false i id a h k =
    (refl, refl, refl, refl, refl, refl, refl, refl, refl, refl)

either :
    (can : Bool) (o : Options) (a : Answers)
    → ((x : Action) → a.throws x ≡ false)
    → IsSession can o a (if can then steps a (session o a) else failed)
unfolding IsSession
either true o a quiet = rw (steps-whole a (session o a) quiet) (
    session-IsSession o.use_websocket o.use_polling o.fetch_live_check o.process_connect_events
      false o.room_id_override a a.socket_handles refl)
either false o a quiet = (refl, refl, refl, refl, refl, refl, refl, refl, refl, refl)

-- Where no callback throws: a run connects exactly if the options, the page or the interface give a
-- room id other than 0, the live check passes or is not asked for, and the first fetch works. It
-- then tells `Connect` first and once, `Disconnect` last and once, delivers the first batch once,
-- right after `Connect`, if that is wanted, uses the socket once exactly if it may, and the polling
-- loop once exactly if it may, or the socket may not be used, or does not handle the session.
-- Otherwise it throws, without any of these steps, and its flag `running` stays set.
pub run-IsSession :
    (o : Options) (a : Answers)
    → ((x : Action) → a.throws x ≡ false)
    → IsSession (can_connect o a) o a (run o a)
run-IsSession o a quiet =
    subst (IsSession (can_connect o a) o a) (sym (run-can o a)) (either (can_connect o a) o a quiet)
