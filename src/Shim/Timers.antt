-- ===== src/Shim/Timers.antt =====
-- The timer queue of js/hybrid-fake-dom.js: `setTimeout` and its relatives, and
-- `__drainDeferredTimeouts`, which fires what is queued. Delays are stored and never looked at.
pub mod Ids
pub mod Drain
mod Tests
use ttlive_cpp.Prelude.{
  ℕ, zero, suc, ◌+◌, ◌==◌, Bool, true, false, List, [], ◌∷◌, ◌++◌, Option, none, some,
  if◌then◌else◌,
}

-- The first argument of `setTimeout`: a function, a text for `eval`, or anything else. Functions
-- and texts are known by a number.
pub data Callback : Type 0 where
  function source : ℕ → Callback
  other : Callback

pub record Timer : Type 0 where
  pub callback : Callback
  pub args : List ℕ
  pub id : ℕ
  pub ms : ℕ

-- `__timerQueue`, `__timerId` and `__drainingTimers`.
pub record Timers : Type 0 where
  pub queue : List Timer
  pub last_id : ℕ
  pub draining : Bool

unfoldable pub no_timers : Timers
no_timers = record { queue = []; last_id = 0; draining = false }

-- `ms || 0`
abbrev pub delay : Option ℕ → ℕ
delay none = 0
delay (some ms) = ms

abbrev entry : Callback → List ℕ → ℕ → ℕ → Timer
entry c args id ms = record { callback = c; args = args; id = id; ms = ms }

-- What is queued under a new identity; a string is queued with no arguments.
unfoldable pub queued : Callback → List ℕ → ℕ → ℕ → List Timer
queued (function f) args id ms = entry (function f) args id ms ∷ []
queued (source s) args id ms = entry (source s) [] id ms ∷ []
queued other args id ms = []

-- The new state and the identity that is returned, which counts up on every call.
unfoldable pub set_timeout : Callback → Option ℕ → List ℕ → Timers → Timers × ℕ
set_timeout c ms args t =
    let id = suc t.last_id in
    (record t { queue = t.queue ++ queued c args id (delay ms); last_id = id }, id)

-- `splice` at the first entry with that identity.
unfoldable pub remove_first : ℕ → List Timer → List Timer
remove_first id [] = []
remove_first id (t ∷ ts) = if t.id == id then ts else t ∷ remove_first id ts

unfoldable pub clear_timeout : ℕ → Timers → Timers
clear_timeout id t = record t { queue = remove_first id t.queue }

-- An interval is a timeout without arguments: it fires once.
unfoldable pub set_interval : Callback → Option ℕ → Timers → Timers × ℕ
set_interval c ms t = set_timeout c ms [] t

unfoldable pub clear_interval : ℕ → Timers → Timers
clear_interval id t = clear_timeout id t

-- `requestAnimationFrame` and `requestIdleCallback` run the callback at once and use an identity.
unfoldable pub take_id : Timers → Timers × ℕ
take_id t = let id = suc t.last_id in (record t { last_id = id }, id)

-- What the code behind a callback can do with the timers.
pub data Action : Type 0 where
  sets : Callback → Option ℕ → List ℕ → Action
  sets_interval : Callback → Option ℕ → Action
  clears clears_interval : ℕ → Action
  takes_id drains : Action

-- The timers and the rest of the world.
pub record World {ℓ} (W : Type ℓ) : Type ℓ where
  pub timers : Timers
  pub rest : W

abbrev pub safety_limit : ℕ
safety_limit = 5000

module _ {ℓ} {W : Type ℓ} where
  abbrev with_timers : World W → Timers → World W
  with_timers w t = record w { timers = t }

  abbrev pub with_queue : World W → List Timer → World W
  with_queue w q = record w { timers = record w.timers { queue = q } }

  abbrev pub set_draining : Bool → World W → World W
  set_draining b w = record w { timers = record w.timers { draining = b } }

-- `body` is the code behind a callback, as the actions that it takes one after the other; an
-- exception ends it and is swallowed.
module _ {ℓ} {W : Type ℓ} (body : Timer → World W → List Action × W) where
  -- `again` is what a nested call of the drain function does.
  unfoldable pub act : (World W → World W) → Action → World W → World W
  act again (sets c ms args) w = with_timers w (set_timeout c ms args w.timers).0
  act again (sets_interval c ms) w = with_timers w (set_interval c ms w.timers).0
  act again (clears id) w = with_timers w (clear_timeout id w.timers)
  act again (clears_interval id) w = with_timers w (clear_interval id w.timers)
  act again takes_id w = with_timers w (take_id w.timers).0
  act again drains w = again w

  unfoldable pub act_all : (World W → World W) → List Action → World W → World W
  act_all again [] w = w
  act_all again (a ∷ more) w = act_all again more (act again a w)

  unfoldable pub fire : (World W → World W) → Timer → World W → World W
  fire again t w =
      let (actions, rest) = body t w in act_all again actions (record w { rest = rest })

  -- One round of the loop on a queue, with the later rounds as `later`.
  abbrev pub round :
      (World W → World W) → (World W → World W × ℕ) → World W → List Timer → World W × ℕ
  round again later w [] = (w, 0)
  round again later w (t ∷ q) =
      let (w', fired) = later (fire again t (with_queue w q)) in (w', suc fired)

  -- The `while` loop with `left` rounds before `safety` reaches its limit; the number of timers
  -- that were fired comes with the state.
  unfoldable pub drain_loop : (World W → World W) → ℕ → World W → World W × ℕ
  drain_loop again zero w = (w, 0)
  drain_loop again (suc left) w = round again (drain_loop again left) w w.timers.queue

  -- `depth` bounds the nesting of drain calls that are not refused by the flag: there is none
  -- beyond the first, so any `depth` from 1 on gives the same.
  unfoldable pub drain : ℕ → World W → World W
  drain zero w = w
  drain (suc depth) w =
      let (w', fired) = drain_loop (drain depth) safety_limit (set_draining true w) in
      if w.timers.draining then w else set_draining false w'
