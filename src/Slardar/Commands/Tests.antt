-- ===== src/Slardar/Commands/Tests.antt =====
-- Commands before and after what they call is provided.
use ttlive_cpp.Prelude.{ℕ, Bool, false, ◌≡◌, ◌≢◌, refl, sym, List, [], ◌∷◌, codes}
use mathlib.Core.List.{nil≢cons}
use ttlive_cpp.Js.Text.{Text, same, before}
use ttlive_cpp.Js.Object.{put, own, has_own, is_inherited}
use ttlive_cpp.Slardar.Util.{includes}
use ttlive_cpp.Slardar.Commands.{
  method, object, member, no_members, Front, split, note, waiting, is_there, command, provide,
  Command, keep_command, replay, replay_one,
}
use ttlive_cpp.Slardar.Commands.Replay.{command_all, calls_of, provide-calls}
use ttlive_cpp.Slardar.Commands.Stuck.{provided, issue_all, after}

abbrev fresh : Front ℕ ℕ
fresh = record { front = []; client = []; queue = []; contexts = []; calls = [] }

abbrev never : ℕ → List ℕ → Bool
never f args = false

abbrev send_event : Text
send_event = codes "sendEvent"

abbrev two_events : List (ℕ × List ℕ)
two_events = (1, 10 ∷ []) ∷ (2, 20 ∷ []) ∷ []

named : (c : ℕ) (s : Text) → (c ∷ s) ≢ []
named c s e = nil≢cons (sym e)

provide-calls_example :
    ((provide never send_event (method 7) (command_all send_event two_events fresh)).calls
      ≡ calls_of 7 [] two_events)
    × ((provide never send_event (method 7) (command_all send_event two_events fresh)).contexts
        ≡ [])
    × (waiting (
          own send_event
            (provide never send_event (method 7) (command_all send_event two_events fresh)).queue)
        ≡ [])
unfolding before is_there includes has_own own is_inherited same
provide-calls_example =
    provide-calls never 7 (λ args. refl) send_event two_events fresh (named b's' (codes "endEvent"))
      refl refl refl refl

abbrev context_set : Text
context_set = codes "context.set"

abbrev set_first : Command ℕ ℕ
set_first = record { context = 1; path = context_set; args = 5 ∷ [] }

abbrev set_then : Command ℕ ℕ
set_then = record { context = 2; path = codes "context"; args = 6 ∷ [] }

abbrev stuck : Front ℕ ℕ
stuck =
    provide never (codes "context") (object no_members)
      (issue_all (set_first ∷ set_then ∷ []) fresh)

-- Provided once more under the whole path as well, the first command is called.
called_in_the_end :
    (after never
      (provided context_set (method 4) ∷ provided (codes "context") (method 3) ∷ [])
      stuck).calls
    ≡ record { callee = 4; args = 5 ∷ []; contexts = 1 ∷ 1 ∷ [] }
      ∷ record { callee = 3; args = 6 ∷ []; contexts = 1 ∷ 2 ∷ [] }
      ∷ []
unfolding after provide issue_all command keep_command replay replay_one note put before is_there
    includes has_own own is_inherited same
called_in_the_end = refl

abbrev with_context : Front ℕ ℕ
with_context = record fresh {
  front = (codes "context", object (member (codes "set") (method 3) no_members)) ∷ [];
}

dotted_at_once :
    (command context_set 1 (5 ∷ []) with_context).calls
    ≡ record { callee = 3; args = 5 ∷ []; contexts = [] } ∷ []
unfolding command before is_there has_own own same split note
dotted_at_once = refl
