-- ===== src/Live/Dispatch/Tests.antt =====
-- Two transports that bring the same message.
use mathlib.Core.List.{foldl}
use ttlive_cpp.Prelude.{
  ℕ, ◌≡◌, ◌≢◌, refl, ◌+◌, List, [], ◌∷◌, ◌++◌, true, false, codes, arith, any, ◌||◌, none,
}
use ttlive_cpp.Prelude.Int.{ℤ, pos, same_int}
use ttlive_cpp.Live.Event.{Event, gift, comment, new_event}
use ttlive_cpp.Live.Parser.{Classes}
use ttlive_cpp.Live.Seen.{Seen, contains, max_seen_ids}
use ttlive_cpp.Live.Dispatch.{Message, Shared, Program, emit, process_fetch_result}
use ttlive_cpp.Live.Dispatch.Once.{fresh, outcome, deliver_all, process_fetch_result-fresh}
use ttlive_cpp.Live.Dispatch.Dual.{
  done, from_socket, from_poll, dual_exactly_once, times, at_most_one, unused, unused-HasSeen,
}
use ttlive_cpp.Live.Dispatch.Ended.{
  register, for_type, for_any, emit-order, ends, process_fetch_result-ended,
}

-- A program whose messages never parse: the callbacks and the sink write a log.
abbrev classes : Classes
classes = record {
  chat = λ b. none;
  gift = λ b. none;
  like = λ b. none;
  member = λ b. none;
  social = λ b. none;
  room_user_seq = λ b. none;
  sub_notify = λ b. none;
  control = λ b. none;
}

abbrev program : Program (List ℕ)
program = record {
  classes = classes;
  handlers =
      foldl register (record { any = []; by_type = λ t. [] })
        (for_type gift 1 ∷ for_any 2 ∷ for_type comment 3 ∷ for_type gift 4 ∷ []);
  call = λ cb ev log. (log ++ (cb ∷ []), false);
  sink = λ kind bytes log. log;
}

abbrev start : Shared (List ℕ)
start = record { running = true; stop_requested = false; live_ended = false; world = [] }

abbrev message : ℕ → Message
message id = record { method = codes "WebcastChatMessage"; payload = []; msg_id = pos id }

abbrev a_gift : Event
a_gift = record new_event { type = gift }

emit-order_example : emit program a_gift start ≡ (record {
  running = true;
  stop_requested = false;
  live_ended = false;
  world = 2 ∷ 1 ∷ 4 ∷ [];
})
unfolding ttlive_cpp.Live.Event.same_type
emit-order_example =
    emit-order program (for_type gift 1 ∷ for_any 2 ∷ for_type comment 3 ∷ for_type gift 4 ∷ [])
      a_gift start refl

process_fetch_result-fresh_example :
    outcome (process_fetch_result program (message 5 ∷ message 0 ∷ message 5 ∷ []) (unused start))
    ≡ deliver_all program (message 5 ∷ message 0 ∷ []) (start, false)
unfolding fresh contains same_int ttlive_cpp.Live.Seen.Window.recent
process_fetch_result-fresh_example =
    process_fetch_result-fresh program (message 5 ∷ message 0 ∷ message 5 ∷ []) (unused start) []
      (unused-HasSeen start)

process_fetch_result-ended_example :
    ((process_fetch_result program (message 5 ∷ message 5 ∷ []) (unused start)).1
      ≡ any (ends program) (fresh [] (message 5 ∷ message 5 ∷ [])))
    × ((process_fetch_result program
          (message 5 ∷ message 5 ∷ [])
          (unused start)).0.shared.live_ended
        ≡ (any (ends program) (fresh [] (message 5 ∷ message 5 ∷ [])) || false))
process_fetch_result-ended_example =
    process_fetch_result-ended program (message 5 ∷ message 5 ∷ []) (unused start) []
      (unused-HasSeen start)

dual_exactly_once_example :
    (delivered : List Message) × (outcome
        (process_fetch_result program (message 5 ∷ message 6 ∷ message 5 ∷ []) (unused start))
      ≡ deliver_all program delivered (start, false))
    × ((id : ℤ)
        → id ≢ pos 0
        → times id delivered
          ≡ at_most_one (times id (message 5 ∷ []) + times id (message 6 ∷ message 5 ∷ [])))
dual_exactly_once_example =
    dual_exactly_once program (message 5 ∷ []) (message 6 ∷ message 5 ∷ [])
      (message 5 ∷ message 6 ∷ message 5 ∷ []) start (from_socket (from_poll (from_poll done)))
      (omega arith)
