-- ===== src/Slardar/Client/Replay.antt =====
-- What `start` does with the reports that wait for it.
use mathlib.Core.List.{append_assoc, append-nil}
use ttlive_cpp.Prelude.{
  ◌==◌, ℕ, suc, ◌+◌, ◌<◌, ◌≡◌, refl, sym, ap, ◌∙◌, true, false, not, ◌&&◌, List, [], ◌∷◌, ◌++◌,
  Option, none, some, if◌then◌else◌, length, length-append, get_elem?, arith, if_true,
}
use ttlive_cpp.Slardar.Util.{Answer}
use ttlive_cpp.Slardar.Client.{
  Client, Moment, start, max_queue, set_hooks, fire, report_event, build_at, build_from, begin,
  start_client, index_of,
}
use ttlive_cpp.Slardar.Client.Early.{
  plain, bound, as_list, told, accepted, processed, build-plain, accepting, accept-started,
  accept-waiting, notify_each-plain,
}

module _ {ℓ} {E : Type ℓ} (answer : ℕ → E → Answer E) (builder : E → Option E) where
  unfoldable pub reports : List E → Client E → Client E
  reports [] c = c
  reports (e ∷ es) c = reports es (report_event (plain answer builder) e c)

  unfoldable gather : (Moment → List ℕ) → List E → List E
  gather h [] = []
  gather h (e ∷ es) = as_list (accepted answer builder h e) ++ gather h es

  unfoldable deliver : (Moment → List ℕ) → List E → List E
  deliver h [] = []
  deliver h (e ∷ es) = as_list (processed answer builder h e) ++ deliver h es

  deliver-as_list :
      (h : Moment → List ℕ) (o : Option E) (es : List E)
      → deliver h (as_list o ++ es) ≡ as_list (bound o (processed answer builder h)) ++ deliver h es
  unfolding deliver
  deliver-as_list h none es = refl
  deliver-as_list h (some e) es = refl

  reports-started :
      (es : List E) (c : Client E)
      → c.started ≡ true
      → reports es c ≡ told c (deliver c.hooks (gather c.hooks es))
  unfolding reports gather deliver
  reports-started [] c h = rw append-nil
  reports-started (e ∷ es) c h =
      let o = accepted answer builder c.hooks e in
      let now = as_list (bound o (processed answer builder c.hooks)) in
      ap (reports es) (accepting answer builder e c ∙ accept-started answer builder o c h)
      ∙ reports-started es (told c now) h
      ∙ ap (λ l. record c { sent = l })
          (append_assoc c.sent now (deliver c.hooks (gather c.hooks es)))
      ∙ ap (told c) (sym (deliver-as_list c.hooks o (gather c.hooks es)))

  length-as_list : (o : Option E) → length (as_list o) < 2
  length-as_list none = omega arith
  length-as_list (some e) = omega arith

  reports-waiting :
      (es : List E) (c : Client E)
      → c.started ≡ false
      → length c.queue + length es < max_queue
      → reports es c ≡ record c { queue = c.queue ++ gather c.hooks es }
  unfolding reports gather
  reports-waiting [] c h k = rw append-nil
  reports-waiting (e ∷ es) c h k =
      let o = accepted answer builder c.hooks e in
      ap (reports es)
        (accepting answer builder e c ∙ accept-waiting answer builder o c h (omega arith))
      ∙ reports-waiting es (record c { queue = c.queue ++ as_list o }) h
          (omega (arith, length-append c.queue (as_list o), length-as_list o))
      ∙ ap (λ l. record c { queue = l }) (append_assoc c.queue (as_list o) (gather c.hooks es))

  get_elem?-append :
      (done : List E) (e : E) (rest : List E)
      → get_elem? (done ++ (e ∷ rest)) (length done) ≡ some e
  get_elem?-append [] e rest = refl
  get_elem?-append (x ∷ done) e rest = get_elem?-append done e rest

  build_from-plain :
      (done rest : List E) (c : Client E)
      → c.started ≡ true
      → c.queue ≡ done ++ rest
      → build_from (plain answer builder) (length done) (length rest) c
        ≡ told c (deliver c.hooks rest)
  unfolding build_from deliver
  build_from-plain done [] c h k = rw append-nil
  build_from-plain done (e ∷ rest) c h k =
      let now = as_list (processed answer builder c.hooks e) in
      ap
        (λ q.
          build_from (plain answer builder) (suc (length done)) (length rest)
            (build_at (plain answer builder) (get_elem? q (length done)) c))
        k
      ∙ ap
          (λ o.
            build_from (plain answer builder) (suc (length done)) (length rest)
              (build_at (plain answer builder) o c))
          (get_elem?-append done e rest)
      ∙ ap (build_from (plain answer builder) (suc (length done)) (length rest))
          (build-plain answer builder e c h)
      ∙ ap (λ n. build_from (plain answer builder) n (length rest) (told c now))
          (omega (arith, length-append done (e ∷ [])))
      ∙ build_from-plain (done ++ (e ∷ [])) rest (told c now) h
          (k ∙ sym (append_assoc done (e ∷ []) rest))
      ∙ ap (λ l. record c { sent = l }) (append_assoc c.sent now (deliver c.hooks rest))

  abbrev no_start : (Moment → List ℕ) → Moment → List ℕ
  no_start h n = if index_of n == index_of start then [] else h n

  deliver-no_start : (h : Moment → List ℕ) (es : List E) → deliver (no_start h) es ≡ deliver h es
  unfolding deliver index_of
  deliver-no_start h [] = refl
  deliver-no_start h (e ∷ es) =
      ap (λ l. as_list (processed answer builder h e) ++ l) (deliver-no_start h es)

  gather-no_start : (h : Moment → List ℕ) (es : List E) → gather (no_start h) es ≡ gather h es
  unfolding gather index_of
  gather-no_start h [] = refl
  gather-no_start h (e ∷ es) =
      ap (λ l. as_list (accepted answer builder h e) ++ l) (gather-no_start h es)

  abbrev begun : Client E → Client E
  begun c = record c { started = true; hooks = no_start c.hooks }

  begin-plain :
      (c : Client E)
      → begin (plain answer builder) c ≡ record c {
        started = true;
        hooks = no_start c.hooks;
        queue = [];
        sent = c.sent ++ deliver c.hooks c.queue;
      }
  unfolding begin fire set_hooks
  begin-plain c =
      ap {A = Client E} {B = Client E}
        (λ d. record (build_from (plain answer builder) 0 (length d.queue) (set_hooks start [] d)) {
          queue = [];
        })
        (notify_each-plain answer builder (c.hooks start) (record c { started = true }))
      ∙ ap {A = Client E} {B = Client E} (λ d. record d { queue = [] })
          (build_from-plain [] c.queue (begun c) refl refl)
      ∙ ap {A = List E} {B = Client E} (λ l. record (begun c) { queue = []; sent = c.sent ++ l })
          (deliver-no_start c.hooks c.queue)

  start-plain :
      (c : Client E)
      → c.inited ≡ true
      → c.started ≡ false
      → c.loaded ≡ true
      → start_client (plain answer builder) c ≡ begin (plain answer builder) c
  unfolding start_client
  start-plain c h k l = if_true _ (ap (λ b. b && not c.started) h ∙ ap not k) ∙ if_true _ l

  -- Up to 499 reports reach the sender in the same order and in the same form whether they come
  -- before the start of the client or after it, if its hooks only change or drop events.
  pub start-reports :
      (es : List E) (c : Client E)
      → c.inited ≡ true
      → c.started ≡ false
      → c.loaded ≡ true
      → c.queue ≡ []
      → length es < max_queue
      → (start_client (plain answer builder) (reports es c)).sent
        ≡ (reports es (start_client (plain answer builder) c)).sent
  unfolding deliver
  start-reports es c h k l q n =
      let P = plain answer builder in
      let filled : Client E = record c { queue = c.queue ++ gather c.hooks es } in
      let late : Client E = record c {
        started = true;
        hooks = no_start c.hooks;
        queue = [];
        sent = c.sent ++ deliver c.hooks c.queue;
      } in
      let got : (reports es (start_client P c)).sent
          ≡ (c.sent ++ deliver c.hooks c.queue) ++ deliver c.hooks (gather c.hooks es) =
        ap (λ d. (reports es d).sent) (start-plain c h k l ∙ begin-plain c)
        ∙ ap (λ d. d.sent) (reports-started es late refl)
        ∙ ap (λ l. (c.sent ++ deliver c.hooks c.queue) ++ l)
            (deliver-no_start c.hooks (gather (no_start c.hooks) es)
              ∙ ap (deliver c.hooks) (gather-no_start c.hooks es)) in
      let early : (start_client P (reports es c)).sent
          ≡ c.sent ++ deliver c.hooks (c.queue ++ gather c.hooks es) =
        ap (λ d. (start_client P d).sent) (reports-waiting es c k (omega (arith, ap length q)))
        ∙ ap (λ d. d.sent) (start-plain filled h k l ∙ begin-plain filled) in
      early
      ∙ ap (λ waiting. c.sent ++ deliver c.hooks (waiting ++ gather c.hooks es)) q
      ∙ ap (λ sent. sent ++ deliver c.hooks (gather c.hooks es)) (sym (append-nil c.sent))
      ∙ ap (λ waiting. (c.sent ++ deliver c.hooks waiting) ++ deliver c.hooks (gather c.hooks es))
          (sym q)
      ∙ sym got
