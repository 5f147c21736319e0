-- ===== src/Shim/Timers/Ids.antt =====
-- The identities in the timer queue.
use ttlive_cpp.Prelude.{
  ℕ, zero, suc, ◌≤◌, ◌<◌, ◌==◌, ◌≡◌, inl, inr, true, false, List, [], ◌∷◌, ◌++◌, arith, All,
  Bool-cases,
}
use ttlive_cpp.Shim.Timers.{
  Callback, function, source, other, Timer, Timers, World, Action, sets, sets_interval, clears,
  clears_interval, takes_id, drains, queued, set_timeout, set_interval, remove_first, clear_timeout,
  clear_interval, take_id, act, act_all, fire, with_queue, drain_loop, drain, set_draining,
  safety_limit, round,
}

-- Identities rise along the queue, above `lo` and up to `hi`.
abbrev pub Rising : ℕ → List Timer → ℕ → Type 0
Rising lo [] hi = lo ≤ hi
Rising lo (t ∷ ts) hi = (lo < t.id) × Rising t.id ts hi

-- No two queued timers share an identity, and none has one that is still to be given out.
abbrev pub IsFresh : Timers → Type 0
IsFresh t = Rising 0 t.queue t.last_id

Rising-lower : (lo lo' : ℕ) (q : List Timer) (hi : ℕ) → lo' ≤ lo → Rising lo q hi → Rising lo' q hi
Rising-lower lo lo' [] hi h r = omega arith
Rising-lower lo lo' (t ∷ q) hi h r = (omega arith, r.1)

Rising-raise : (lo : ℕ) (q : List Timer) (hi hi' : ℕ) → hi ≤ hi' → Rising lo q hi → Rising lo q hi'
Rising-raise lo [] hi hi' h r = omega arith
Rising-raise lo (t ∷ q) hi hi' h r = (r.0, Rising-raise t.id q hi hi' h r.1)

Rising-bound : (lo : ℕ) (q : List Timer) (hi : ℕ) → Rising lo q hi → lo ≤ hi
Rising-bound lo [] hi r = r
Rising-bound lo (t ∷ q) hi r = omega (arith, Rising-bound t.id q hi r.1)

Rising-queued :
    (lo : ℕ) (c : Callback) (args : List ℕ) (hi ms : ℕ)
    → lo ≤ hi
    → Rising lo (queued c args (suc hi) ms) (suc hi)
unfolding queued
Rising-queued lo (function f) args hi ms h = omega arith
Rising-queued lo (source s) args hi ms h = omega arith
Rising-queued lo other args hi ms h = omega arith

Rising-append :
    (lo : ℕ) (q : List Timer) (c : Callback) (args : List ℕ) (hi ms : ℕ)
    → Rising lo q hi
    → Rising lo (q ++ queued c args (suc hi) ms) (suc hi)
Rising-append lo [] c args hi ms r = Rising-queued lo c args hi ms r
Rising-append lo (t ∷ q) c args hi ms r = (r.0, Rising-append t.id q c args hi ms r.1)

Rising-remove_first :
    (lo id : ℕ) (q : List Timer) (hi : ℕ) → Rising lo q hi → Rising lo (remove_first id q) hi
unfolding remove_first
Rising-remove_first lo id [] hi r = r
Rising-remove_first lo id (t ∷ q) hi r =
    ground (arith, Rising-remove_first t.id id q hi r.1, Rising-lower t.id lo q hi)

other_ids :
    (id lo : ℕ) (q : List Timer) (hi : ℕ)
    → id ≤ lo
    → Rising lo q hi
    → All (λ t. (t.id == id) ≡ false) q
other_ids id lo [] hi h r = tt
other_ids id lo (t ∷ q) hi h r = (ground arith, other_ids id t.id q hi (omega arith) r.1)

-- Where identities are distinct, a cleared timer is gone from the queue.
clear_timeout-gone :
    (id lo : ℕ) (q : List Timer) (hi : ℕ)
    → Rising lo q hi
    → All (λ t. (t.id == id) ≡ false) (remove_first id q)
unfolding remove_first
clear_timeout-gone id lo [] hi r = tt
clear_timeout-gone id lo (t ∷ q) hi r =
    ground (arith, clear_timeout-gone id t.id q hi r.1, other_ids id t.id q hi)

module _ {ℓ} {W : Type ℓ} (body : Timer → World W → List Action × W) where
  module _ (again : World W → World W)
      (keeps : (w : World W) → IsFresh w.timers → IsFresh (again w).timers) where
    act-IsFresh :
        (a : Action) (w : World W) → IsFresh w.timers → IsFresh (act body again a w).timers
    unfolding act set_timeout set_interval clear_timeout clear_interval take_id
    act-IsFresh (sets c ms args) w h = Rising-append 0 w.timers.queue c args w.timers.last_id _ h
    act-IsFresh (sets_interval c ms) w h = Rising-append 0 w.timers.queue c [] w.timers.last_id _ h
    act-IsFresh (clears id) w h = Rising-remove_first 0 id w.timers.queue w.timers.last_id h
    act-IsFresh (clears_interval id) w h =
        Rising-remove_first 0 id w.timers.queue w.timers.last_id h
    act-IsFresh takes_id w h = Rising-raise 0 w.timers.queue w.timers.last_id _ (omega arith) h
    act-IsFresh drains w h = keeps w h

    act_all-IsFresh :
        (acts : List Action) (w : World W)
        → IsFresh w.timers
        → IsFresh (act_all body again acts w).timers
    unfolding act_all
    act_all-IsFresh [] w h = h
    act_all-IsFresh (a ∷ acts) w h = act_all-IsFresh acts (act body again a w) (act-IsFresh a w h)

    fire-IsFresh :
        (t : Timer) (w : World W) → IsFresh w.timers → IsFresh (fire body again t w).timers
    unfolding fire
    fire-IsFresh t w h = act_all-IsFresh (body t w).0 (record w { rest = (body t w).1 }) h

    round-IsFresh :
        (later : World W → World W × ℕ)
        → ((v : World W) → IsFresh v.timers → IsFresh (later v).0.timers)
        → (w : World W) (q : List Timer) → Rising 0 q w.timers.last_id
        → IsFresh w.timers
        → IsFresh (round body again later w q).0.timers
    round-IsFresh later ih w [] r h = h
    round-IsFresh later ih w (t ∷ q) r h =
        ih (fire body again t (with_queue w q)) (
          fire-IsFresh t (with_queue w q)
            (Rising-lower t.id 0 q w.timers.last_id (omega arith) r.1))

    drain_loop-IsFresh :
        (left : ℕ) (w : World W)
        → IsFresh w.timers
        → IsFresh (drain_loop body again left w).0.timers
    unfolding drain_loop
    drain_loop-IsFresh zero w h = h
    drain_loop-IsFresh (suc left) w h =
        round-IsFresh (drain_loop body again left) (drain_loop-IsFresh left) w w.timers.queue h h

  drain-IsFresh : (depth : ℕ) (w : World W) → IsFresh w.timers → IsFresh (drain body depth w).timers
  unfolding drain
  drain-IsFresh zero w h = h
  drain-IsFresh (suc depth) w h =
      let ended =
        drain_loop-IsFresh (drain body depth) (drain-IsFresh depth) safety_limit
          (set_draining true w) h in
      elim (Bool-cases w.timers.draining) [ inl e ↦ rw e h | inr e ↦ rw e ended ]

  -- Whatever the callbacks do, an action of the page keeps the identities in the queue distinct and
  -- below those still to be given out, the drain of the queue included; and after `clearTimeout`
  -- no timer of that identity is left.
  pub timer_ids :
      (depth : ℕ) (a : Action) (id : ℕ) (w : World W)
      → IsFresh w.timers
      → IsFresh (act body (drain body depth) a w).timers
        × All (λ t. (t.id == id) ≡ false) (clear_timeout id w.timers).queue
  unfolding clear_timeout
  timer_ids depth a id w h = (
    act-IsFresh (drain body depth) (drain-IsFresh depth) a w h,
    clear_timeout-gone id 0 w.timers.queue w.timers.last_id h,
  )
