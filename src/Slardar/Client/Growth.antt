-- ===== src/Slardar/Client/Growth.antt =====
-- What no call of the client's, and no hook that calls it back, can break.
use ttlive_cpp.Prelude.{
  ℕ, zero, suc, ◌-◌, ◌<◌, ◌≡◌, refl, ◌∙◌, Bool, true, false, List, [], ◌∷◌, ◌++◌, Option, none,
  some, length, length-append, arith, if_has,
}
use ttlive_cpp.Slardar.Util.{pipe_keeps, then_on, then_on_keeps}
use ttlive_cpp.Slardar.Client.{
  Client, Moment, before_build, build, before_send, send, Program, max_queue, spill_size, drop,
  set_hooks, enqueue, notify_each, fire, through, hand_over, send_event, built, sent_on,
  build_event,
}

module _ {ℓ} {E : Type ℓ} where
  length-drop : (n : ℕ) (xs : List E) → length (drop n xs) ≡ length xs - n
  unfolding drop
  length-drop zero xs = omega arith
  length-drop (suc n) [] = omega arith
  length-drop (suc n) (x ∷ xs) = omega (arith, length-drop n xs)

  -- The queue stays below its limit, a client that has started stays started, and nothing is sent
  -- as long as it has not.
  pub record Grows (c c' : Client E) : Type ℓ where
    pub within : length c.queue < max_queue → length c'.queue < max_queue
    pub stays : c.started ≡ true → c'.started ≡ true
    pub unsent : c'.started ≡ false → c'.sent ≡ c.sent

  pub Grows-refl : (c : Client E) → Grows c c
  Grows-refl c = record { within = λ h. h; stays = λ h. h; unsent = λ _. refl }

  before : (c c' : Client E) → Grows c c' → c'.started ≡ false → c.started ≡ false
  before c c' g h =
      elim (c.started) as (λ b. c.started ≡ b → b ≡ false) [
        | true ↦ λ e. cc (g.stays e)
        | false ↦ λ _. refl
      ]
        refl

  pub Grows-trans : {a b c : Client E} → Grows a b → Grows b c → Grows a c
  Grows-trans {a} {b} {c} g k = record {
    within = λ h. k.within (g.within h);
    stays = λ h. k.stays (g.stays h);
    unsent = λ h. k.unsent h ∙ g.unsent (before b c k h);
  }

  pub set_hooks-Grows : (m : Moment) (fs : List ℕ) (c : Client E) → Grows c (set_hooks m fs c)
  unfolding set_hooks
  set_hooks-Grows m fs c = record { within = λ h. h; stays = λ h. h; unsent = λ _. refl }

  pub enqueue-Grows : (e : E) (c : Client E) → Grows c (enqueue e c)
  unfolding enqueue
  enqueue-Grows e c = record {
    within = λ h.
        ground
          (arith, length-append c.queue (e ∷ []), length-drop spill_size (c.queue ++ (e ∷ [])));
    stays = λ h. ground arith;
    unsent = λ h. ground arith;
  }

  -- The hooks keep it.
  pub record IsTame (p : Program E) : Type ℓ where
    pub hook_grows : (f : ℕ) (e : E) (c : Client E) → Grows c (p.hook f e c).1
    pub notify_grows : (f : ℕ) (c : Client E) → Grows c (p.notify f c)
    pub tear_down_grows : (c : Client E) → Grows c (p.tear_down c)

  module _ (p : Program E) (tame : IsTame p) where
    notify_each-Grows : (fs : List ℕ) (c : Client E) → Grows c (notify_each p fs c)
    unfolding notify_each
    notify_each-Grows [] c = Grows-refl c
    notify_each-Grows (f ∷ fs) c =
        Grows-trans (tame.notify_grows f c) (notify_each-Grows fs (p.notify f c))

    pub fire-Grows : (m : Moment) (once : Bool) (c : Client E) → Grows c (fire p m once c)
    unfolding fire
    fire-Grows m true c = Grows-trans (notify_each-Grows (c.hooks m) c) (set_hooks-Grows m [] _)
    fire-Grows m false c = notify_each-Grows (c.hooks m) c

    pub through-Grows :
        (m : Moment) (e : E) (a c : Client E) → Grows a c → Grows a (through p m e c).1
    unfolding through
    through-Grows m e a c g =
        pipe_keeps p.hook (Grows a) (λ f e s h. Grows-trans h (tame.hook_grows f e s)) (c.hooks m) e
          c g

    Grows-next :
        (a : Client E) (f : E → Client E → Option E × Client E)
        → ((e : E) (c : Client E) → c.started ≡ true → Grows c (f e c).1)
        → a.started ≡ true
        → (e : E) (c : Client E) → Grows a c
        → Grows a (f e c).1
    Grows-next a f step h e c g = Grows-trans g (step e c (g.stays h))

    hand_over-Grows : (e : E) (c : Client E) → c.started ≡ true → Grows c (hand_over p e c).1
    unfolding hand_over
    hand_over-Grows e c h =
        let told : Client E = record c { sent = c.sent ++ (e ∷ []) } in
        let g : Grows c told = record { within = λ k. k; stays = λ k. k; unsent = λ k. cc } in
        Grows-trans g (fire-Grows send false told)

    pub send-Grows : (e : E) (c : Client E) → Grows c (send_event p e c)
    unfolding send_event
    send-Grows e c =
        if_has (Grows c) c.started
          (λ h.
            then_on_keeps (Grows c) (through p before_send e c) (hand_over p)
              (through-Grows before_send e c c (Grows-refl c))
              (Grows-next c (hand_over p) hand_over-Grows h))
          (λ _. Grows-refl c)

    built-Grows : (o : Option E) (c : Client E) → Grows c (built p o c).1
    unfolding built
    built-Grows none c = Grows-refl c
    built-Grows (some e) c = through-Grows build e c c (Grows-refl c)

    pub build-Grows : (e : E) (c : Client E) → Grows c (build_event p e c)
    unfolding build_event sent_on
    build-Grows e c =
        let ready = through-Grows before_build e c c (Grows-refl c) in
        let made =
          then_on_keeps (Grows c) (through p before_build e c) (λ e'. built p (p.builder e')) ready
            (λ e' s g. Grows-trans g (built-Grows (p.builder e') s)) in
        if_has (Grows c) c.started
          (λ _.
            then_on_keeps (Grows c)
              (then_on (through p before_build e c) (λ e'. built p (p.builder e'))) (sent_on p) made
              (λ e' s g. Grows-trans g (send-Grows e' s)))
          (λ _. Grows-refl c)
