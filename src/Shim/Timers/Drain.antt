-- ===== src/Shim/Timers/Drain.antt =====
-- `__drainDeferredTimeouts` ends, in what state, and in which order it fires.
use mathlib.Core.List.{foldl}
use ttlive_cpp.Prelude.{
  ℕ, zero, suc, ◌≤◌, ◌≡◌, refl, sym, ap, ◌∙◌, ◌⊎◌, inl, inr, Bool, true, false, List, [], ◌∷◌,
  length, arith, List-cases,
}
use ttlive_cpp.Shim.Timers.{
  Timer, World, Action, sets, sets_interval, clears, clears_interval, takes_id, drains, act,
  act_all, fire, with_queue, round, drain_loop, drain, set_draining, safety_limit, set_timeout,
  clear_timeout, set_interval, clear_interval, take_id,
}

module _ {ℓ} {W : Type ℓ} (body : Timer → World W → List Action × W) where
  -- What a nested call must do: nothing, while the queue is being drained.
  abbrev Idle : (World W → World W) → Type ℓ
  Idle again = (w : World W) → w.timers.draining ≡ true → again w ≡ w

  drain-Idle : (depth : ℕ) → Idle (drain body depth)
  unfolding drain
  drain-Idle zero w h = refl
  drain-Idle (suc depth) w h = rw h

  module _ (again : World W → World W) (idle : Idle again) where
    act-draining :
        (a : Action) (w : World W)
        → w.timers.draining ≡ true
        → (act body again a w).timers.draining ≡ true
    unfolding act set_timeout set_interval clear_timeout clear_interval take_id
    act-draining (sets c ms args) w h = h
    act-draining (sets_interval c ms) w h = h
    act-draining (clears id) w h = h
    act-draining (clears_interval id) w h = h
    act-draining takes_id w h = h
    act-draining drains w h = ap (λ (v : World W). v.timers.draining) (idle w h) ∙ h

    act_all-draining :
        (acts : List Action) (w : World W)
        → w.timers.draining ≡ true
        → (act_all body again acts w).timers.draining ≡ true
    unfolding act_all
    act_all-draining [] w h = h
    act_all-draining (a ∷ acts) w h =
        act_all-draining acts (act body again a w) (act-draining a w h)

    fire-draining :
        (t : Timer) (w : World W)
        → w.timers.draining ≡ true
        → (fire body again t w).timers.draining ≡ true
    unfolding fire
    fire-draining t w h = act_all-draining (body t w).0 (record w { rest = (body t w).1 }) h

    -- One round of the loop, by what the queue holds.
    drain_loop_empty :
        (left : ℕ) (w : World W) → w.timers.queue ≡ [] → drain_loop body again (suc left) w ≡ (w, 0)
    unfolding drain_loop
    drain_loop_empty left w e = ap (round body again (drain_loop body again left) w) e

    drain_loop_next :
        (left : ℕ) (w : World W) (t : Timer) (q : List Timer)
        → w.timers.queue ≡ t ∷ q
        → let r = drain_loop body again left (fire body again t (with_queue w q)) in
          drain_loop body again (suc left) w ≡ (r.0, suc r.1)
    unfolding drain_loop
    drain_loop_next left w t q e = ap (round body again (drain_loop body again left) w) e

    abbrev Ends : ℕ → World W × ℕ → Type 0
    Ends left r = (r.0.timers.queue ≡ []) ⊎ (r.1 ≡ left)

    next-Ends : (left : ℕ) (r : World W × ℕ) → Ends left r → Ends (suc left) (r.0, suc r.1)
    next-Ends left r (inl e) = inl e
    next-Ends left r (inr e) = inr (ap suc e)

    -- The loop ends with an empty queue, unless it has fired as often as it may.
    drain_loop-Ends : (left : ℕ) (w : World W) → Ends left (drain_loop body again left w)
    drain_loop-Ends zero w = inr (unfold drain_loop in refl)
    drain_loop-Ends (suc left) w = elim (List-cases w.timers.queue) [
      | inl e ↦ rw (drain_loop_empty left w e) (inl e)
      | inr (t, q, e) ↦ rw (drain_loop_next left w t q e) (
          next-Ends left (drain_loop body again left (fire body again t (with_queue w q)))
            (drain_loop-Ends left (fire body again t (with_queue w q))))
    ]

  -- Two drain functions that do nothing when nested give the same loop.
  module _ (f g : World W → World W) (idle_f : Idle f) (idle_g : Idle g) where
    act-agree :
        (a : Action) (w : World W) → w.timers.draining ≡ true → act body f a w ≡ act body g a w
    unfolding act
    act-agree drains w h = idle_f w h ∙ sym (idle_g w h)
    act-agree _ w h = refl

    act_all-agree :
        (acts : List Action) (w : World W)
        → w.timers.draining ≡ true
        → act_all body f acts w ≡ act_all body g acts w
    unfolding act_all
    act_all-agree [] w h = refl
    act_all-agree (a ∷ acts) w h =
        act_all-agree acts (act body f a w) (act-draining f idle_f a w h)
        ∙ ap (act_all body g acts) (act-agree a w h)

    drain_loop-agree :
        (left : ℕ) (w : World W)
        → w.timers.draining ≡ true
        → drain_loop body f left w ≡ drain_loop body g left w
    drain_loop-agree zero w h = unfold drain_loop in refl
    drain_loop-agree (suc left) w h = elim (List-cases w.timers.queue) [
      | inl e ↦ drain_loop_empty f idle_f left w e ∙ sym (drain_loop_empty g idle_g left w e)
      | inr (t, q, e) ↦
          let fired : fire body f t (with_queue w q) ≡ fire body g t (with_queue w q) =
            unfold fire in
            act_all-agree (body t (with_queue w q)).0
              (record (with_queue w q) { rest = (body t (with_queue w q)).1 }) h in
          let rest =
            drain_loop-agree left (fire body f t (with_queue w q))
              (fire-draining f idle_f t (with_queue w q) h)
            ∙ ap (drain_loop body g left) fired in
          drain_loop_next f idle_f left w t q e
          ∙ ap (λ (r : World W × ℕ). (r.0, suc r.1)) rest
          ∙ sym (drain_loop_next g idle_g left w t q e)
    ]

  -- A drain call made by a callback while the queue is drained is refused by the flag, so the bound
  -- on the nesting of such calls does not matter.
  pub drain_nesting : (m n : ℕ) (w : World W) → drain body (suc m) w ≡ drain body (suc n) w
  unfolding drain
  drain_nesting m n w = rw (
      drain_loop-agree (drain body m) (drain body n) (drain-Idle m) (drain-Idle n) safety_limit
        (set_draining true w) refl)

  -- A drain that is not itself nested ends, clears the flag, and leaves timers in the queue only if
  -- it has fired 5000 of them.
  pub drain_ends :
      (depth : ℕ) (w : World W)
      → w.timers.draining ≡ false
      → ((drain body (suc depth) w).timers.draining ≡ false)
        × (((drain body (suc depth) w).timers.queue ≡ [])
            ⊎ ((drain_loop body (drain body depth) safety_limit (set_draining true w)).1
                ≡ safety_limit))
  unfolding drain
  drain_ends depth w h = rw h (
    refl,
    drain_loop-Ends (drain body depth) (drain-Idle depth) safety_limit (set_draining true w),
  )

module _ {ℓ} {W : Type ℓ} (run : Timer → W → W) where
  -- A callback that leaves the timers alone.
  abbrev pub quiet : Timer → World W → List Action × W
  quiet t w = ([], run t w.rest)

  abbrev pub fired_in_order : World W → World W
  fired_in_order w = record {
    timers = record w.timers { queue = [] };
    rest = foldl (λ r t. run t r) w.rest w.timers.queue;
  }

  drain_loop-quiet :
      (again : World W → World W) (left : ℕ) (q : List Timer) (id : ℕ) (b : Bool) (r : W)
      → length q ≤ left
      → drain_loop quiet again left
          (record { timers = record { queue = q; last_id = id; draining = b }; rest = r })
        ≡ (
          record {
            timers = record { queue = []; last_id = id; draining = b };
            rest = foldl (λ v t. run t v) r q;
          },
          length q,
        )
  unfolding drain_loop fire act_all
  drain_loop-quiet again zero [] id b r h = refl
  drain_loop-quiet again zero (t ∷ q) id b r h = absurd (omega arith)
  drain_loop-quiet again (suc n) [] id b r h = refl
  drain_loop-quiet again (suc n) (t ∷ q) id b r h =
      ap (λ (p : World W × ℕ). (p.0, suc p.1))
        (drain_loop-quiet again n q id b (run t r) (omega arith))

  -- With callbacks that leave the timers alone, a queue of at most 5000 timers is fired in the
  -- order in which it was filled, whatever the delays, and each timer once.
  pub drain_order :
      (depth : ℕ) (w : World W)
      → w.timers.draining ≡ false
      → length w.timers.queue ≤ safety_limit
      → drain quiet (suc depth) w ≡ fired_in_order w
  unfolding drain
  drain_order depth w h few = rw (
    drain_loop-quiet (drain quiet depth) safety_limit w.timers.queue w.timers.last_id true w.rest
        few,
    h,
  )
