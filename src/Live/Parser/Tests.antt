-- ===== src/Live/Parser/Tests.antt =====
-- Two messages that parse, and one that does not.
use ttlive_cpp.Prelude.{ℕ, ◌≡◌, ◌↔◌, List, [], ◌∷◌, Option, some, none, true, codes}
use ttlive_cpp.Prelude.Int.{pos}
use ttlive_cpp.Live.Event.{live_end, new_event}
use ttlive_cpp.Live.Parser.{Classes, Control, UserMessage, parse_event}
use ttlive_cpp.Live.Parser.Laws.{Kept, LiveEnding, parse_event-Kept, parse_event-live_end}

abbrev somebody : UserMessage
somebody = record {
  id = pos 7;
  display_id = codes "ann";
  nickname = codes "Ann";
  verified = true;
  avatar_thumb = none;
  avatar_medium = some (record { url_list = codes "u" ∷ [] });
}

-- Classes that read a chat message from any bytes, and the action of a control message from its
-- first byte.
abbrev first_action : List ℕ → Option Control
first_action [] = none
first_action (a ∷ rest) = some (record { action = pos a })

abbrev classes : Classes
classes = record {
  chat = λ b. some (record { user = somebody; content = b });
  gift = λ b. none;
  like = λ b. none;
  member = λ b. none;
  social = λ b. none;
  room_user_seq = λ b. none;
  sub_notify = λ b. none;
  control = first_action;
}

parse_event-Kept_case :
    Kept
      (codes "WebcastGiftMessage")
      (1 ∷ [])
      new_event
      (parse_event classes (codes "WebcastGiftMessage") (1 ∷ []) new_event)
parse_event-Kept_case = parse_event-Kept classes (codes "WebcastGiftMessage") (1 ∷ []) new_event

parse_event-live_end_example :
    ((parse_event classes (codes "WebcastControlMessage") (3 ∷ []) new_event).1.type ≡ live_end)
    ↔ LiveEnding classes (codes "WebcastControlMessage") (3 ∷ [])
parse_event-live_end_example =
    parse_event-live_end classes (codes "WebcastControlMessage") (3 ∷ []) new_event
