-- ===== src/Slardar/Batch/Order.antt =====
-- The sender loses nothing and repeats nothing.
use mathlib.Core.Path.{subst}
use mathlib.Core.List.{append_assoc, append-nil}
use ttlive_cpp.Prelude.{
  ℕ, ◌≡◌, refl, sym, ap, ◌∙◌, Bool, true, false, List, [], ◌∷◌, ◌++◌, length, leb, if_has, ◌⊎◌, inl,
  inr,
}
use ttlive_cpp.Js.Text.{Text}
use ttlive_cpp.Slardar.Batch.{
  Post, Sender, Page, Call, do_send, do_flush, do_time_out, do_clear, do_unload, do_visible,
  do_set_size, do_set_wait, do_set_endpoint, posted_list, post_batch, set_size, set_wait,
  set_endpoint, collect, post_beacon, send, flush, time_out, clear, hand_off, unload, visible,
  perform, perform_all, new_sender,
}

-- The third list is made of the first two, each in its order.
pub data Shuffles {ℓ} {E : Type ℓ} : List E → List E → List E → Type ℓ where
  done : Shuffles [] [] []
  first : (e : E) {a b c : List E} → Shuffles a b c → Shuffles (e ∷ a) b (e ∷ c)
  second : (e : E) {a b c : List E} → Shuffles a b c → Shuffles a (e ∷ b) (e ∷ c)

module _ {ℓ} {E : Type ℓ} where
  Shuffles-left : (x : List E) → Shuffles x [] x
  Shuffles-left [] = done
  Shuffles-left (e ∷ x) = first e (Shuffles-left x)

  Shuffles-right : (x : List E) → Shuffles [] x x
  Shuffles-right [] = done
  Shuffles-right (e ∷ x) = second e (Shuffles-right x)

  first-append : (x : List E) {a b c : List E} → Shuffles a b c → Shuffles (a ++ x) b (c ++ x)
  first-append x done = Shuffles-left x
  first-append x (first e s) = first e (first-append x s)
  first-append x (second e s) = second e (first-append x s)

  second-append : (x : List E) {a b c : List E} → Shuffles a b c → Shuffles a (b ++ x) (c ++ x)
  second-append x done = Shuffles-right x
  second-append x (first e s) = first e (second-append x s)
  second-append x (second e s) = second e (second-append x s)

module _ {ℓ} {E : Type ℓ} where
  -- The events of the requests, in their order.
  abbrev pub flat : List (Post E) → List E
  flat [] = []
  flat (p ∷ ps) = p.list ++ flat ps

  flat-append : (ps qs : List (Post E)) → flat (ps ++ qs) ≡ flat ps ++ flat qs
  flat-append [] qs = refl
  flat-append (p ∷ ps) qs =
      ap (λ l. p.list ++ l) (flat-append ps qs) ∙ sym (append_assoc p.list (flat ps) (flat qs))

  -- What has been posted, and behind it what waits.
  abbrev pub all_of : Sender E → List E
  all_of s = flat s.posts ++ s.buffer

  -- The timer runs where something waits, and nothing waits while beacons are sent.
  pub record IsTimed (s : Sender E) : Type ℓ where
    pub timed : s.armed ≡ false → s.buffer ≡ []
    pub direct : s.beaconing ≡ true → s.buffer ≡ []

  flat-posted :
      (es : List E) (b : Bool) (s : Sender E) → flat (posted_list es b s).posts ≡ flat s.posts ++ es
  flat-posted [] b s = sym (append-nil (flat s.posts))
  flat-posted (e ∷ es) b s =
      flat-append s.posts _ ∙ ap (λ l. flat s.posts ++ l) (append-nil (e ∷ es))

  -- A step that is given `es`: what it moves into requests stood first in line.
  pub record Adds (es : List E) (s s' : Sender E) : Type ℓ where
    pub moved : List E
    pub posted : flat s'.posts ≡ flat s.posts ++ moved
    pub waits : moved ++ s'.buffer ≡ s.buffer ++ es
    pub keeps : IsTimed s'

  posted-state :
      (es : List E) (b : Bool) (s : Sender E)
      → ((posted_list es b s).armed ≡ s.armed)
        × ((posted_list es b s).beaconing ≡ s.beaconing)
        × ((posted_list es b s).buffer ≡ s.buffer)
  posted-state [] b s = (refl, refl, refl)
  posted-state (e ∷ es) b s = (refl, refl, refl)

  emptied : (s : Sender E) → s.buffer ≡ [] → IsTimed s
  emptied s h = record { timed = λ _. h; direct = λ _. h }

  post_batch-Adds : (s : Sender E) → Adds [] s (post_batch s)
  unfolding post_batch
  post_batch-Adds s = record {
    moved = s.buffer;
    posted = flat-posted s.buffer false s;
    waits = refl;
    keeps = emptied (post_batch s) refl;
  }

  post_batch-beaconing : (s : Sender E) → (post_batch s).beaconing ≡ s.beaconing
  unfolding post_batch
  post_batch-beaconing s = (posted-state s.buffer false s).1

  -- The timer is set where the sender collects.
  armed-Adds :
      (es : List E) (s s' : Sender E)
      → s.beaconing ≡ false
      → s'.beaconing ≡ s.beaconing
      → (moved : List E) → flat s'.posts ≡ flat s.posts ++ moved
      → moved ++ s'.buffer ≡ s.buffer ++ es
      → Adds es s (record s' { armed = true })
  armed-Adds es s s' h b moved p w = record {
    moved = moved;
    posted = p;
    waits = w;
    keeps = record { timed = λ k. cc; direct = λ k. cc };
  }

  collect-Adds : (e : E) (s : Sender E) → s.beaconing ≡ false → Adds (e ∷ []) s (collect e s)
  unfolding collect post_batch
  collect-Adds e s h =
      let s1 : Sender E = record s { buffer = s.buffer ++ (e ∷ []) } in
      if_has (λ (s2 : Sender E). Adds (e ∷ []) s (record s2 { armed = true }))
        (leb s.size (length s1.buffer))
        (λ _.
          armed-Adds (e ∷ []) s (post_batch s1) h (post_batch-beaconing s1) s1.buffer
            (flat-posted s1.buffer false s1) (append-nil s1.buffer))
        (λ _. armed-Adds (e ∷ []) s s1 h refl [] (sym (append-nil (flat s.posts))) refl)

  flush-Adds : (s : Sender E) → Adds [] s (flush s)
  unfolding flush
  flush-Adds s =
      let g = post_batch-Adds (record s { armed = false }) in
      record { moved = g.moved; posted = g.posted; waits = g.waits; keeps = g.keeps }

  -- Nothing is given and nothing is posted.
  same-Adds :
      (s s' : Sender E) → IsTimed s' → s'.posts ≡ s.posts → s'.buffer ≡ s.buffer → Adds [] s s'
  same-Adds s s' t p w = record {
    moved = [];
    posted = ap flat p ∙ sym (append-nil (flat s.posts));
    waits = w ∙ sym (append-nil s.buffer);
    keeps = t;
  }

  none_added : (s : Sender E) → IsTimed s → Adds [] s s
  none_added s t = same-Adds s s t refl refl

  time_out-Adds : (s : Sender E) → IsTimed s → Adds [] s (time_out s)
  unfolding time_out flush
  time_out-Adds s t = if_has (Adds [] s) s.armed (λ _. flush-Adds s) (λ _. none_added s t)

  module _ (page : Page) (able : page.has_beacon ≡ true) where
    beacon-posted : (es : List E) (s : Sender E) → post_beacon page es s ≡ posted_list es true s
    unfolding post_beacon
    beacon-posted es s = rw able refl

    beacon-Adds :
        (e : E) (s : Sender E)
        → IsTimed s
        → s.beaconing ≡ true
        → Adds (e ∷ []) s (post_beacon page (e ∷ []) s)
    beacon-Adds e s t h = subst (Adds (e ∷ []) s) (sym (beacon-posted (e ∷ []) s)) (record {
      moved = e ∷ [];
      posted = flat-posted (e ∷ []) true s;
      waits = ap (λ l. e ∷ l) (t.direct h) ∙ ap (λ l. l ++ (e ∷ [])) (sym (t.direct h));
      keeps = record { timed = t.timed; direct = t.direct };
    })

    send-Adds : (e : E) (s : Sender E) → IsTimed s → Adds (e ∷ []) s (send page e s)
    unfolding send
    send-Adds e s t =
        if_has (Adds (e ∷ []) s) s.beaconing (λ h. beacon-Adds e s t h) (λ h. collect-Adds e s h)

    hand_off-posts :
        (es : List E) (s : Sender E)
        → s.buffer ≡ es
        → (flat (hand_off page es s).posts ≡ flat s.posts ++ es)
          × ((hand_off page es s).buffer ≡ [])
    unfolding clear
    hand_off-posts [] s h = (sym (append-nil (flat s.posts)), h)
    hand_off-posts (e ∷ es) s h = (
      ap (λ (d : Sender E). flat d.posts) (beacon-posted (e ∷ es) s) ∙ flat-posted (e ∷ es) true s,
      refl,
    )

    unload-Adds : (s : Sender E) → IsTimed s → Adds [] s (unload page s)
    unfolding unload
    unload-Adds s t =
        let off = hand_off-posts s.buffer s refl in
        let away : Sender E = record (hand_off page s.buffer s) {
          beaconing = true;
          unloaded = true;
        } in
        if_has (Adds [] s) s.unloaded (λ _. none_added s t)
          λ _.
            if_has (Adds [] s) page.use_beacon
              (λ _. record {
                moved = s.buffer;
                posted = off.0;
                waits = ap (λ l. s.buffer ++ l) off.1;
                keeps = emptied away off.1;
              })
              (λ _.
                let f = flush-Adds s in
                record {
                  moved = f.moved;
                  posted = f.posted;
                  waits = f.waits;
                  keeps = record { timed = f.keeps.timed; direct = f.keeps.direct };
                })

    -- The events that a call hands over, and those that it drops.
    abbrev pub given : Call E → List E
    given (do_send e) = e ∷ []
    given _ = []

    abbrev pub given_all : List (Call E) → List E
    given_all [] = []
    given_all (call ∷ calls) = given call ++ given_all calls

    abbrev pub dropped : Call E → Sender E → List E
    dropped do_clear s = s.buffer
    dropped _ s = []

    unfoldable pub dropped_all : List (Call E) → Sender E → List E
    dropped_all [] s = []
    dropped_all (call ∷ calls) s = dropped call s ++ dropped_all calls (perform page call s)

    perform-Adds :
        (call : Call E) (s : Sender E)
        → IsTimed s
        → (Adds (given call) s (perform page call s) × (dropped call s ≡ []))
          ⊎ ((call ≡ do_clear) × IsTimed (perform page call s))
    unfolding perform visible set_size set_wait set_endpoint clear
    perform-Adds (do_send e) s t = inl (send-Adds e s t, refl)
    perform-Adds do_flush s t = inl (flush-Adds s, refl)
    perform-Adds do_time_out s t = inl (time_out-Adds s t, refl)
    perform-Adds do_clear s t = inr (refl, emptied _ refl)
    perform-Adds do_unload s t = inl (unload-Adds s t, refl)
    perform-Adds do_visible s t =
        inl (same-Adds s _ (record { timed = t.timed; direct = λ h. cc }) refl refl, refl)
    perform-Adds (do_set_size n) s t =
        inl (same-Adds s _ (record { timed = t.timed; direct = t.direct }) refl refl, refl)
    perform-Adds (do_set_wait n) s t =
        inl (same-Adds s _ (record { timed = t.timed; direct = t.direct }) refl refl, refl)
    perform-Adds (do_set_endpoint u) s t =
        inl (same-Adds s _ (record { timed = t.timed; direct = t.direct }) refl refl, refl)

    -- What was posted and what was dropped so far make up, shuffled, what was given before what waits.
    record Accounts (all out : List E) (s : Sender E) : Type ℓ where
      before : List E
      told : all ≡ before ++ s.buffer
      split : Shuffles (flat s.posts) out before

    Adds-Accounts :
        (all out es : List E) (s s' : Sender E)
        → Adds es s s'
        → Accounts all out s
        → Accounts (all ++ es) out s'
    Adds-Accounts all out es s s' a c = record {
      before = c.before ++ a.moved;
      told =
          ap (λ l. l ++ es) c.told
          ∙ append_assoc c.before s.buffer es
          ∙ ap (λ l. c.before ++ l) (sym a.waits)
          ∙ sym (append_assoc c.before a.moved s'.buffer);
      split =
          subst (λ l. Shuffles l out (c.before ++ a.moved)) (sym a.posted)
            (first-append a.moved c.split);
    }

    clear-Accounts :
        (all out : List E) (s : Sender E)
        → Accounts all out s
        → Accounts all (out ++ s.buffer) (clear s)
    unfolding clear
    clear-Accounts all out s c = record {
      before = c.before ++ s.buffer;
      told = c.told ∙ sym (append-nil (c.before ++ s.buffer));
      split = second-append s.buffer c.split;
    }

    step-Accounts :
        (call : Call E) (all out : List E) (s : Sender E)
        → IsTimed s
        → Accounts all out s
        → Accounts (all ++ given call) (out ++ dropped call s) (perform page call s)
          × IsTimed (perform page call s)
    unfolding perform
    step-Accounts call all out s t c = elim (perform-Adds call s t) [
      | inl (a, none) ↦
          (rw none (rw (append-nil out) (Adds-Accounts all out (given call) s _ a c)), a.keeps)
      | inr (is_clear, k) ↦ (
        subst (λ d. Accounts (all ++ given d) (out ++ dropped d s) (perform page d s))
            (sym is_clear) (rw (append-nil all) (clear-Accounts all out s c)),
        k,
      )
    ]

    all-Accounts :
        (calls : List (Call E)) (all out : List E) (s : Sender E)
        → IsTimed s
        → Accounts all out s
        → Accounts (all ++ given_all calls) (out ++ dropped_all calls s) (perform_all page calls s)
          × IsTimed (perform_all page calls s)
    unfolding perform_all dropped_all
    all-Accounts [] all out s t c = (rw (append-nil all) (rw (append-nil out) c), t)
    all-Accounts (call ∷ calls) all out s t c =
        let one = step-Accounts call all out s t c in
        let rest =
          all-Accounts calls (all ++ given call) (out ++ dropped call s) (perform page call s) one.1
            one.0 in
        (
          rw (sym (append_assoc all (given call) (given_all calls))) (
              rw (sym (append_assoc out (dropped call s) (dropped_all calls (perform page call s))))
                rest.0),
          rest.1,
        )

    -- Where the browser has beacons: after any calls, time-outs and page changes the events that were
    -- sent are, in their order and once each, those that were posted or that a `clear` dropped while
    -- they waited, and behind them those that wait. The posted ones stand in the order of the requests.
    pub perform_all-order :
        (calls : List (Call E)) (size wait : ℕ) (endpoint : Text)
        → (before : List E) × (given_all calls
            ≡ before ++ (perform_all page calls (new_sender size wait endpoint)).buffer)
          × Shuffles
              (flat (perform_all page calls (new_sender size wait endpoint)).posts)
              (dropped_all calls (new_sender size wait endpoint))
              before
    unfolding new_sender
    perform_all-order calls size wait endpoint =
        let c =
          (all-Accounts calls [] [] (new_sender size wait endpoint) (emptied _ refl)
            (record { before = []; told = refl; split = done })).0 in
        (c.before, c.told, c.split)

    -- Where the browser has beacons: after any calls, time-outs and page changes, if events wait
    -- to be posted then the timer that will post them runs.
    pub perform_all-timed :
        (calls : List (Call E)) (size wait : ℕ) (endpoint : Text)
        → (perform_all page calls (new_sender size wait endpoint)).armed ≡ false
        → (perform_all page calls (new_sender size wait endpoint)).buffer ≡ []
    unfolding new_sender
    perform_all-timed calls size wait endpoint =
        (all-Accounts calls [] [] (new_sender size wait endpoint) (emptied _ refl)
          (record { before = []; told = refl; split = done })).1.timed
