-- ===== src/Live/Dispatch/Dual.antt =====
-- Dual mode: the messages of the socket and those of the polling loop, in any interleaving.
use ttlive_cpp.Prelude.{
  ℕ, suc, ◌+◌, ◌≤◌, ◌≡◌, ◌≢◌, refl, ap, ◌∙◌, false, ◌==◌, List, [], ◌∷◌, ◌++◌, length,
  length-append, if◌then◌else◌, arith,
}
use ttlive_cpp.Prelude.Int.{ℤ, pos, same_int, same_int_iff}
use ttlive_cpp.Live.Seen.{contains, nothing_seen, max_seen_ids}
use ttlive_cpp.Live.Seen.Window.{recent, recent-short, contains-push, Distinct}
use ttlive_cpp.Live.Dispatch.{Message, Shared, Client, Program, process_fetch_result}
use ttlive_cpp.Live.Dispatch.Once.{fresh, outcome, deliver_all, HasSeen, process_fetch_result-fresh}

-- How often an id occurs.
abbrev pub times : ℤ → List Message → ℕ
times id [] = 0
times id (m ∷ ms) = if same_int m.msg_id id then suc (times id ms) else times id ms

-- 1 where something occurs, 0 where nothing does.
abbrev pub at_most_one : ℕ → ℕ
at_most_one n = if n == 0 then 0 else 1

-- The sequences in which the messages of two transports can come to the lock.
pub data Interleaves : List Message → List Message → List Message → Type 0 where
  done : Interleaves [] [] []
  from_socket :
      {m : Message} {ws ps ms : List Message}
      → Interleaves ws ps ms
      → Interleaves (m ∷ ws) ps (m ∷ ms)
  from_poll :
      {m : Message} {ws ps ms : List Message}
      → Interleaves ws ps ms
      → Interleaves ws (m ∷ ps) (m ∷ ms)

times-Interleaves :
    (id : ℤ) (ws ps ms : List Message)
    → Interleaves ws ps ms
    → times id ms ≡ times id ws + times id ps
times-Interleaves id _ _ _ done = omega arith
times-Interleaves id _ _ _ (from_socket {m} {ws} {ps} {ms} i) =
    ground (arith, times-Interleaves id ws ps ms i)
times-Interleaves id _ _ _ (from_poll {m} {ws} {ps} {ms} i) =
    ground (arith, times-Interleaves id ws ps ms i)

length-Interleaves :
    (ws ps ms : List Message) → Interleaves ws ps ms → length ms ≡ length ws + length ps
length-Interleaves _ _ _ done = omega arith
length-Interleaves _ _ _ (from_socket {m} {ws} {ps} {ms} i) =
    omega (arith, length-Interleaves ws ps ms i)
length-Interleaves _ _ _ (from_poll {m} {ws} {ps} {ms} i) =
    omega (arith, length-Interleaves ws ps ms i)

-- While the history stays below the limit, an id is delivered if it has not been, and once.
times-fresh :
    (id : ℤ) (h : List ℤ) (ms : List Message)
    → id ≢ pos 0
    → length h + length ms ≤ max_seen_ids
    → times id (fresh h ms) ≡ (if contains id h then 0 else at_most_one (times id ms))
unfolding fresh
times-fresh id h [] real few = ground arith
times-fresh id h (m ∷ ms) real few =
    let long = length-append h (m.msg_id ∷ []) in
    rw (recent-short h (omega arith)) (
      ground (
        arith,
        times-fresh id h ms real (omega arith),
        times-fresh id (h ++ (m.msg_id ∷ [])) ms real (omega arith),
        contains-push id m.msg_id h,
        same_int_iff m.msg_id id,
        same_int_iff m.msg_id (pos 0),
      ))

-- A client that has delivered nothing.
abbrev pub unused {ℓ} : {W : Type ℓ} → Shared W → Client W
unused s = record { seen = nothing_seen; shared = s }

pub unused-HasSeen {ℓ} : {W : Type ℓ} (s : Shared W) → HasSeen [] (unused s)
unfolding nothing_seen recent Distinct
unused-HasSeen s = ((λ id. refl, (tt, omega arith)), refl)

-- In whatever order the messages of the socket and of the polling loop come, up to 500000 of them: the
-- callbacks see the deliveries of one list of messages, in which each id but 0 that either transport
-- has brought occurs exactly once.
pub dual_exactly_once {ℓ} :
    {W : Type ℓ} (p : Program W) (ws ps ms : List Message) (s : Shared W)
    → Interleaves ws ps ms
    → length ws + length ps ≤ max_seen_ids
    → (delivered : List Message) × (outcome (process_fetch_result p ms (unused s))
        ≡ deliver_all p delivered (s, false))
      × ((id : ℤ) → id ≢ pos 0 → times id delivered ≡ at_most_one (times id ws + times id ps))
unfolding contains
dual_exactly_once p ws ps ms s i few = (
  fresh [] ms,
  process_fetch_result-fresh p ms (unused s) [] (unused-HasSeen s),
  λ id real.
      times-fresh id [] ms real (omega (arith, length-Interleaves ws ps ms i))
      ∙ ap at_most_one (times-Interleaves id ws ps ms i),
)
