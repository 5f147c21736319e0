-- ===== src/Slardar/Client/Queue.antt =====
-- Histories of calls: the queue of the client never fills up, and nothing is sent before the start.
use ttlive_cpp.Prelude.{
  ℕ, zero, suc, ◌<◌, ◌≡◌, refl, true, false, not, ◌&&◌, List, [], ◌∷◌, ◌++◌, Option, none, some,
  length, get_elem?, arith, if_has,
}
use ttlive_cpp.Js.Text.{Text, same}
use ttlive_cpp.Slardar.Util.{then_on, then_on_keeps, includes}
use ttlive_cpp.Slardar.Client.{
  Client, Moment, before_report, report, start, config, init, before_destroy, provide,
  before_config, Program, Setup, Call, do_init, do_start, do_set, do_settings, do_destroy,
  do_report, do_build, do_send, do_provide, do_on, do_off, max_queue, fire, through, accept,
  report_event, build_at, build_from, begin, start_client, settings_arrive, init_client, set_config,
  provide_name, reserved, destroy, passed, on, off, perform, perform_all, new_client,
}
use ttlive_cpp.Slardar.Client.Growth.{
  Grows, Grows-refl, Grows-trans, IsTame, set_hooks-Grows, enqueue-Grows, fire-Grows, through-Grows,
  build-Grows, send-Grows,
}

module _ {ℓ} {E : Type ℓ} (p : Program E) (tame : IsTame p) where
  accept-Grows : (e : E) (c : Client E) → Grows c (accept p e c).1
  unfolding accept
  accept-Grows e c =
      if_has (Grows c) c.started (λ _. build-Grows p tame e c) (λ _. enqueue-Grows e c)

  report-Grows : (e : E) (c : Client E) → Grows c (report_event p e c)
  unfolding report_event
  report-Grows e c =
      then_on_keeps (Grows c) (then_on (through p before_report e c) (through p report)) (accept p)
        (then_on_keeps (Grows c) (through p before_report e c) (through p report)
          (through-Grows p tame before_report e c c (Grows-refl c))
          (λ e' s g. through-Grows p tame report e' c s g))
        (λ e' s g. Grows-trans g (accept-Grows e' s))

  build_at-Grows : (o : Option E) (c : Client E) → Grows c (build_at p o c)
  build_at-Grows none c = Grows-refl c
  build_at-Grows (some e) c = build-Grows p tame e c

  build_from-Grows : (i left : ℕ) (c : Client E) → Grows c (build_from p i left c)
  unfolding build_from
  build_from-Grows i zero c = Grows-refl c
  build_from-Grows i (suc left) c =
      Grows-trans (build_at-Grows (get_elem? c.queue i) c) (build_from-Grows (suc i) left _)

  begin-Grows : (c : Client E) → Grows c (begin p c)
  unfolding begin
  begin-Grows c =
      let on_air : Client E = record c { started = true } in
      let fired = fire p start true on_air in
      let through_queue = build_from p 0 (length fired.queue) fired in
      let first : Grows c on_air = record {
        within = λ h. h;
        stays = λ _. refl;
        unsent = λ k. cc;
      } in
      let last : Grows through_queue (record through_queue { queue = [] }) = record {
        within = λ _. omega arith;
        stays = λ h. h;
        unsent = λ _. refl;
      } in
      Grows-trans first (
        Grows-trans (fire-Grows p tame start true on_air)
          (Grows-trans (build_from-Grows 0 (length fired.queue) fired) last))

  start-Grows : (c : Client E) → Grows c (start_client p c)
  unfolding start_client
  start-Grows c =
      if_has (Grows c) (c.inited && not c.started)
        (λ _.
          if_has (Grows c) c.loaded (λ _. begin-Grows c)
            (λ _. record { within = λ h. h; stays = λ h. h; unsent = λ _. refl }))
        (λ _. Grows-refl c)

  settings-Grows : (c : Client E) → Grows c (settings_arrive p c)
  unfolding settings_arrive
  settings-Grows c =
      let there : Client E = record c { loaded = true } in
      let told = fire p config false there in
      let first : Grows c told =
        Grows-trans (record { within = λ h. h; stays = λ h. h; unsent = λ _. refl })
          (fire-Grows p tame config false there) in
      let next : Client E = record told { waiting = false } in
      let second : Grows told next = record {
        within = λ h. h;
        stays = λ h. h;
        unsent = λ _. refl;
      } in
      if_has (Grows c) told.waiting (λ _. Grows-trans first (Grows-trans second (begin-Grows next)))
        (λ _. first)

  init-Grows : (s : Setup E) (c : Client E) → Grows c (init_client p s c)
  unfolding init_client
  init-Grows s c =
      let up : Client E = record c { inited = true; loaded = s.local } in
      let first : Grows c up = record { within = λ h. h; stays = λ h. h; unsent = λ _. refl } in
      if_has (Grows c) (not c.inited && s.valid && s.has_default && s.has_sender)
        (λ _. Grows-trans first (fire-Grows p tame init true up)) (λ _. Grows-refl c)

  set-Grows : (c : Client E) → Grows c (set_config p c)
  unfolding set_config
  set-Grows c =
      if_has (Grows c) c.inited
        (λ _.
          Grows-trans (fire-Grows p tame before_config false c) (fire-Grows p tame config false _))
        (λ _. Grows-refl c)

  provide-Grows : (name : Text) (c : Client E) → Grows c (provide_name p name c)
  unfolding provide_name
  provide-Grows name c =
      let given : Client E = record c { provided = name ∷ c.provided } in
      let first : Grows c given = record { within = λ h. h; stays = λ h. h; unsent = λ _. refl } in
      if_has (Grows c) (includes same reserved name) (λ _. Grows-refl c)
        (λ _. Grows-trans first (fire-Grows p tame provide false given))

  destroy-Grows : (c : Client E) → Grows c (destroy p c)
  unfolding destroy
  destroy-Grows c =
      let torn = p.tear_down c in
      let gone : Client E = record torn { destroyed = true; queue = [] } in
      let second : Grows torn gone = record {
        within = λ _. omega arith;
        stays = λ h. h;
        unsent = λ _. refl;
      } in
      Grows-trans (tame.tear_down_grows c)
        (Grows-trans second (fire-Grows p tame before_destroy true gone))

  on-Grows : (m : Moment) (f : ℕ) (c : Client E) → Grows c (on p m f c)
  unfolding on
  on-Grows m f c =
      if_has (Grows c) (passed m c) (λ _. tame.notify_grows f c)
        (λ _. set_hooks-Grows m (c.hooks m ++ (f ∷ [])) c)

  perform-Grows : (call : Call E) (c : Client E) → Grows c (perform p call c)
  unfolding perform off
  perform-Grows (do_init s) c = init-Grows s c
  perform-Grows do_start c = start-Grows c
  perform-Grows do_set c = set-Grows c
  perform-Grows do_settings c = settings-Grows c
  perform-Grows do_destroy c = destroy-Grows c
  perform-Grows (do_report e) c = report-Grows e c
  perform-Grows (do_build e) c = build-Grows p tame e c
  perform-Grows (do_send e) c = send-Grows p tame e c
  perform-Grows (do_provide name) c = provide-Grows name c
  perform-Grows (do_on m f) c = on-Grows m f c
  perform-Grows (do_off m f) c = set_hooks-Grows m _ c

  perform_all-Grows : (calls : List (Call E)) (c : Client E) → Grows c (perform_all p calls c)
  unfolding perform_all
  perform_all-Grows [] c = Grows-refl c
  perform_all-Grows (call ∷ calls) c =
      Grows-trans (perform-Grows call c) (perform_all-Grows calls _)

  -- Whatever calls a new client gets, and whatever calls its hooks make of their own that fill no
  -- queue: fewer than 500 reports wait for the start.
  pub perform_all-queue_lt :
      (calls : List (Call E)) → length (perform_all p calls new_client).queue < max_queue
  perform_all-queue_lt calls = (perform_all-Grows calls new_client).within (omega arith)

  -- As long as a client has not started, its sender has been given nothing, whatever calls it got
  -- and whatever its hooks do that send nothing themselves before the start.
  pub perform_all-unsent :
      (calls : List (Call E))
      → (perform_all p calls new_client).started ≡ false
      → (perform_all p calls new_client).sent ≡ []
  perform_all-unsent calls h = (perform_all-Grows calls new_client).unsent h
