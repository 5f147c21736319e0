-- ===== src/Slardar/Client/Early.antt =====
-- A report before the start against the same report after it, for hooks that only transform events.
use mathlib.Core.List.{append-nil}
use ttlive_cpp.Prelude.{
  ℕ, suc, ◌<◌, ◌≡◌, refl, ap, ◌∙◌, true, false, List, [], ◌∷◌, ◌++◌, Option, none, some, length,
  length-append, lt→ltb, arith, if_true, if_false,
}
use ttlive_cpp.Slardar.Util.{Answer, threw, falsy, gave, pipe, then_on, answered}
use ttlive_cpp.Slardar.Client.{
  Client, Moment, before_build, build, before_send, send, before_report, report, Program, max_queue,
  enqueue, notify_each, fire, through, hand_over, send_event, built, sent_on, build_event, accept,
  report_event,
}

abbrev pub bound {ℓ} : {E : Type ℓ} → Option E → (E → Option E) → Option E
bound none f = none
bound (some e) f = f e

abbrev pub as_list {ℓ} : {E : Type ℓ} → Option E → List E
as_list none = []
as_list (some e) = e ∷ []

abbrev pub told {ℓ} : {E : Type ℓ} → Client E → List E → Client E
told c es = record c { sent = c.sent ++ es }

module _ {ℓ} {E : Type ℓ} (answer : ℕ → E → Answer E) (builder : E → Option E) where
  -- Hooks that leave the client alone.
  abbrev pub plain : Program E
  plain = record {
    hook = λ f e c. (answer f e, c);
    notify = λ f c. c;
    tear_down = λ c. c;
    builder = builder;
  }

  abbrev after : E → Answer E → Option E
  after e threw = some e
  after e falsy = none
  after e (gave e') = some e'

  unfoldable pub chain : List ℕ → E → Option E
  chain [] e = some e
  chain (f ∷ fs) e = bound (after e (answer f e)) (chain fs)

  pipe_step :
      (fs : List ℕ) (c : Client E) (e : E) (a : Answer E)
      → ((e' : E) → pipe plain.hook fs e' c ≡ (chain fs e', c))
      → then_on (answered plain.hook e (a, c)) (pipe plain.hook fs)
        ≡ (bound (after e a) (chain fs), c)
  pipe_step fs c e threw ih = ih e
  pipe_step fs c e falsy ih = refl
  pipe_step fs c e (gave e') ih = ih e'

  pipe-chain : (fs : List ℕ) (e : E) (c : Client E) → pipe plain.hook fs e c ≡ (chain fs e, c)
  unfolding pipe chain
  pipe-chain [] e c = refl
  pipe-chain (f ∷ fs) e c = pipe_step fs c e (answer f e) (λ e'. pipe-chain fs e' c)

  through-chain :
      (m : Moment) (e : E) (c : Client E) → through plain m e c ≡ (chain (c.hooks m) e, c)
  unfolding through
  through-chain m e c = pipe-chain (c.hooks m) e c

  pub notify_each-plain : (fs : List ℕ) (c : Client E) → notify_each plain fs c ≡ c
  unfolding notify_each
  notify_each-plain [] c = refl
  notify_each-plain (f ∷ fs) c = notify_each-plain fs c

  abbrev pub accepted : (Moment → List ℕ) → E → Option E
  accepted h e = bound (chain (h before_report) e) (chain (h report))

  abbrev pub made : (Moment → List ℕ) → E → Option E
  made h e = bound (chain (h before_build) e) λ e'. bound (builder e') (chain (h build))

  -- What the sender gets for an accepted report.
  abbrev pub processed : (Moment → List ℕ) → E → Option E
  processed h e = bound (made h e) (chain (h before_send))

  handed : (o : Option E) (c : Client E) → (then_on (o, c) (hand_over plain)).1 ≡ told c (as_list o)
  unfolding hand_over fire
  handed none c = rw append-nil
  handed (some e) c = notify_each-plain (c.hooks send) (told c (e ∷ []))

  send-plain :
      (e : E) (c : Client E)
      → c.started ≡ true
      → send_event plain e c ≡ told c (as_list (chain (c.hooks before_send) e))
  unfolding send_event
  send-plain e c h =
      if_true _ h
      ∙ ap (λ r. (then_on r (hand_over plain)).1) (through-chain before_send e c)
      ∙ handed (chain (c.hooks before_send) e) c

  built-plain :
      (o : Option E) (c : Client E) → built plain o c ≡ (bound o (chain (c.hooks build)), c)
  unfolding built
  built-plain none c = refl
  built-plain (some e) c = through-chain build e c

  made-plain :
      (o : Option E) (c : Client E)
      → then_on (o, c) (λ e'. built plain (builder e'))
        ≡ (bound o (λ e'. bound (builder e') (chain (c.hooks build))), c)
  made-plain none c = refl
  made-plain (some e) c = built-plain (builder e) c

  sent_on-plain :
      (o : Option E) (c : Client E)
      → c.started ≡ true
      → (then_on (o, c) (sent_on plain)).1
        ≡ told c (as_list (bound o (chain (c.hooks before_send))))
  unfolding sent_on
  sent_on-plain none c h = rw append-nil
  sent_on-plain (some e) c h = send-plain e c h

  pub build-plain :
      (e : E) (c : Client E)
      → c.started ≡ true
      → build_event plain e c ≡ told c (as_list (processed c.hooks e))
  unfolding build_event
  build-plain e c h =
      if_true _ h
      ∙ ap (λ r. (then_on (then_on r (λ e'. built plain (builder e'))) (sent_on plain)).1)
          (through-chain before_build e c)
      ∙ ap (λ r. (then_on r (sent_on plain)).1) (made-plain (chain (c.hooks before_build) e) c)
      ∙ sent_on-plain (made c.hooks e) c h

  reporting-plain :
      (o : Option E) (c : Client E)
      → then_on (o, c) (through plain report) ≡ (bound o (chain (c.hooks report)), c)
  reporting-plain none c = refl
  reporting-plain (some e) c = through-chain report e c

  pub accepting :
      (e : E) (c : Client E)
      → report_event plain e c ≡ (then_on (accepted c.hooks e, c) (accept plain)).1
  unfolding report_event
  accepting e c =
      ap (λ r. (then_on (then_on r (through plain report)) (accept plain)).1)
        (through-chain before_report e c)
      ∙ ap (λ r. (then_on r (accept plain)).1) (reporting-plain (chain (c.hooks before_report) e) c)

  pub accept-started :
      (o : Option E) (c : Client E)
      → c.started ≡ true
      → (then_on (o, c) (accept plain)).1 ≡ told c (as_list (bound o (processed c.hooks)))
  unfolding accept
  accept-started none c h = rw append-nil
  accept-started (some e) c h = if_true _ h ∙ build-plain e c h

  pub accept-waiting :
      (o : Option E) (c : Client E)
      → c.started ≡ false
      → suc (length c.queue) < max_queue
      → (then_on (o, c) (accept plain)).1 ≡ record c { queue = c.queue ++ as_list o }
  unfolding accept enqueue
  accept-waiting none c h k = rw append-nil
  accept-waiting (some e) c h k =
      if_false _ h
      ∙ if_true _ (
          lt→ltb (length (c.queue ++ (e ∷ []))) max_queue
            (omega (arith, length-append c.queue (e ∷ []))))
