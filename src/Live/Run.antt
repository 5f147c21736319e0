-- ===== src/Live/Run.antt =====
-- `run` of src/client.cpp: the order of its steps, and where it throws. What the requests answer, and
-- in which step a callback throws, is given; `none` is an exception.
pub mod Order
mod Tests
use ttlive_cpp.Prelude.{
  List, [], ◌∷◌, ◌++◌, Bool, true, false, not, ◌&&◌, Option, none, some, if◌then◌else◌,
}
use ttlive_cpp.Prelude.Int.{ℤ, pos, same_int}

-- `ClientOptions`, the fields that `run` looks at for its order.
pub record Options : Type 0 where
  pub use_websocket : Bool
  pub use_polling : Bool
  pub fetch_live_check : Bool
  pub process_connect_events : Bool
  pub room_id_override : ℤ

-- What `run` does that can be seen from outside: the two events, the messages of the first fetch,
-- and the transports; `socket` with whether it may fall back.
pub data Action : Type 0 where
  emits_connect emits_disconnect delivers_backlog polls both : Action
  socket : Bool → Action

-- What the steps come to: the two ways to the room id, the live check, the first fetch, and whether
-- the socket handles the session.
pub record Answers : Type 0 where
  pub from_html : Option ℤ
  pub from_api : Option ℤ
  pub is_live : Option Bool
  pub can_fetch : Bool
  pub socket_handles : Bool
  -- Does a callback throw in the step, in the thread of `run`?
  pub throws : Action → Bool

-- The steps in their order, whether an exception has left the last of them, and the flag `running`. Out
-- of `both` an exception meets the thread of the poller, which is not joined, and ends the program.
pub record Outcome : Type 0 where
  pub actions : List Action
  pub threw : Bool
  pub running : Bool

-- An exception of the page counts as no id.
abbrev or_zero : Option ℤ → ℤ
or_zero none = pos 0
or_zero (some id) = id

-- Step 1.
unfoldable pub resolve_room : Options → Answers → Option ℤ
resolve_room o a =
    if not (same_int o.room_id_override (pos 0))
    then some o.room_id_override
    else if same_int (or_zero a.from_html) (pos 0)
    then a.from_api
    else some (or_zero a.from_html)

-- Step 2: a check that is not asked for passes.
unfoldable pub live_check : Options → Answers → Option Bool
live_check o a = if o.fetch_live_check then a.is_live else some true

-- Step 6.
unfoldable pub transports : Options → Answers → List Action
transports o a =
    if o.use_websocket && o.use_polling
    then both ∷ []
    else if o.use_websocket
    then socket true ∷ (if not a.socket_handles then polls ∷ [] else [])
    else polls ∷ []

-- A run that throws before any step that can be seen.
abbrev pub failed : Outcome
failed = record { actions = []; threw = true; running = true }

-- Step 7: the flag is reset before `Disconnect` is told.
unfoldable pub tear_down : Answers → Outcome
tear_down a = record {
  actions = emits_disconnect ∷ [];
  threw = a.throws emits_disconnect;
  running = false;
}

-- Steps one after the other, up to one that throws.
abbrev pub before : Action → Outcome → Outcome
before x r = record r { actions = x ∷ r.actions }

unfoldable pub steps : Answers → List Action → Outcome
steps a [] = tear_down a
steps a (x ∷ xs) =
    let rest = steps a xs in
    if a.throws x then record { actions = x ∷ []; threw = true; running = true } else before x rest

-- Steps 3 to 7.
abbrev pub connected : Options → Answers → Outcome
connected o a =
    if a.can_fetch
    then steps a (
        emits_connect
        ∷ ((if o.process_connect_events then delivers_backlog ∷ [] else []) ++ transports o a))
    else failed

abbrev pub checked : Options → Answers → Option Bool → Outcome
checked o a none = failed
checked o a (some false) = failed
checked o a (some true) = connected o a

abbrev pub resolved : Options → Answers → Option ℤ → Outcome
resolved o a none = failed
resolved o a (some id) = if same_int id (pos 0) then failed else checked o a (live_check o a)

unfoldable pub run : Options → Answers → Outcome
run o a = resolved o a (resolve_room o a)
