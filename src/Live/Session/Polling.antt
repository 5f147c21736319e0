-- ===== src/Live/Session/Polling.antt =====
-- The length of a sleep, and the cursor of the polling loop.
use ttlive_cpp.Prelude.{
  ℕ, zero, suc, ◌+◌, ◌-◌, ◌*◌, ◌≤◌, ◌<◌, ◌≡◌, refl, inl, inr, List, [], ◌∷◌, Bool, true, false, not,
  ◌&&◌, Option, none, some, ltb, leb, arith, All, Bool-cases, if_has,
}
use ttlive_cpp.Js.Text.{Text}
use ttlive_cpp.Live.Event.{is_empty}
use ttlive_cpp.Live.Session.{
  sleep_slices, interruptible_sleep, Poll, PollRound, Fetch, goes_on, advance, keep_old, poll_end,
  poll_loop, poll_start,
}

abbrev pub sum : List ℕ → ℕ
sum [] = 0
sum (x ∷ xs) = x + sum xs

sleep_slices-sum :
    (left : ℕ) (ms slept : ℕ)
    → ms ≤ slept + 50 * left
    → sum (sleep_slices left (λ t. true) ms slept) ≡ ms - slept
unfolding sleep_slices
sleep_slices-sum zero ms slept h = omega arith
sleep_slices-sum (suc left) ms slept h =
    ground (arith, sleep_slices-sum left ms (slept + 50) (omega arith))

sleep_slices-short :
    (left : ℕ) (alive : ℕ → Bool) (ms slept : ℕ)
    → All (λ t. t ≤ 50) (sleep_slices left alive ms slept)
unfolding sleep_slices
sleep_slices-short zero alive ms slept = tt
sleep_slices-short (suc left) alive ms slept =
    if_has (All (λ t. t ≤ 50)) (ltb slept ms && alive slept)
      (λ _. (ground arith, sleep_slices-short left alive ms (slept + 50))) (λ _. tt)

sleep_slices-stops :
    (left : ℕ) (alive : ℕ → Bool) (ms slept stop : ℕ)
    → ((t : ℕ) → stop ≤ t → alive t ≡ false)
    → slept ≤ stop + 50
    → sum (sleep_slices left alive ms slept) ≤ stop + 50 - slept
unfolding sleep_slices
sleep_slices-stops zero alive ms slept stop h le = omega arith
sleep_slices-stops (suc left) alive ms slept stop h le = elim (Bool-cases (alive slept)) [
  | inl on ↦ elim (Bool-cases (leb stop slept)) [
    | inl late ↦ absurd (ground (arith, h slept))
    | inr early ↦
        rw on (ground (arith, sleep_slices-stops left alive ms (slept + 50) stop h (ground arith)))
  ]
  | inr off ↦ rw off (ground arith)
]

-- A sleep takes exactly the time asked for if nobody asks to stop; each of its slices is at most
-- 50 ms; and if somebody has asked when `stop` ms have passed, it takes at most 50 ms more.
pub interruptible_sleep-sum :
    (alive : ℕ → Bool) (ms stop : ℕ)
    → ((t : ℕ) → stop ≤ t → alive t ≡ false)
    → (sum (interruptible_sleep (λ t. true) ms) ≡ ms)
      × (All (λ t. t ≤ 50) (interruptible_sleep alive ms)
          × (sum (interruptible_sleep alive ms) ≤ stop + 50))
unfolding interruptible_sleep
interruptible_sleep-sum alive ms stop h = (
  omega (arith, sleep_slices-sum ms ms 0 (omega arith)),
  (
    sleep_slices-short ms alive ms 0,
    omega (arith, sleep_slices-stops ms alive ms 0 stop h (omega arith)),
  ),
)

-- A fetch asks from a cursor, and the pause before it has a length.
abbrev pub IsUsable : Poll → Type 0
IsUsable p = (is_empty p.cursor ≡ false) × (0 < p.interval_ms)

keep_old-nonempty : (new old : Text) → is_empty old ≡ false → is_empty (keep_old new old) ≡ false
keep_old-nonempty [] old h = h
keep_old-nonempty (c ∷ new) old h = refl

advance-IsUsable : (f : Fetch) (p : Poll) → IsUsable p → IsUsable (advance f p)
advance-IsUsable f p h = (keep_old-nonempty f.cursor p.cursor h.0, ground arith)

-- A loop from a usable state asks only from usable states.
AllUsable : Bool × List Poll → Type 0
AllUsable r = All IsUsable r.1

poll_end-IsUsable :
    (later : Poll → Bool × List Poll)
    → ((q : Poll) → IsUsable q → AllUsable (later q))
    → (p : Poll) (batch : Option (Fetch × Bool)) → IsUsable p
    → AllUsable (poll_end later p batch)
unfolding AllUsable
poll_end-IsUsable later ih p none h = ih p h
poll_end-IsUsable later ih p (some (f, true)) h = tt
poll_end-IsUsable later ih p (some (f, false)) h = ih (advance f p) (advance-IsUsable f p h)

nothing_asked : AllUsable (true, [])
unfolding AllUsable
nothing_asked = tt

one_more : (p : Poll) (r : Bool × List Poll) → IsUsable p → AllUsable r → AllUsable (r.0, p ∷ r.1)
unfolding AllUsable
one_more p r h rest = (h, rest)

start-IsUsable : (f : Fetch) → is_empty f.cursor ≡ false → IsUsable (poll_start f)
unfolding poll_start
start-IsUsable f h = (h, ground arith)

usable_states : (rs : List PollRound) (p : Poll) → IsUsable p → AllUsable (poll_loop rs p)
unfolding poll_loop
usable_states [] p h = unfold AllUsable in tt
usable_states (r ∷ rs) p h =
    if_has AllUsable (not (goes_on r.before)) (λ _. nothing_asked)
      λ _.
        if_has AllUsable (not (goes_on r.rested)) (λ _. nothing_asked)
          λ _.
            one_more p (poll_end (poll_loop rs) p r.batch) h
              (poll_end-IsUsable (poll_loop rs) (usable_states rs) p r.batch h)

-- If the first result has a cursor, every fetch of the polling loop is made with one, whatever the
-- server sends or leaves out and however many fetches fail, and the interval never becomes 0.
pub poll_loop-IsUsable :
    (rs : List PollRound) (initial : Fetch)
    → is_empty initial.cursor ≡ false
    → All IsUsable (poll_loop rs (poll_start initial)).1
poll_loop-IsUsable rs initial h =
    unfold AllUsable in usable_states rs (poll_start initial) (start-IsUsable initial h)
