-- ===== src/Slardar/Client.antt =====
-- The client of js/browser.sg.js (the function `z`): its life from `init` over `start` to `destroy`,
-- the hooks of its twelve moments, and the queue of what is reported before the start. A hook is
-- known by its identity, and no hook registers another for the moment at which it runs itself.
pub mod Growth
pub mod Queue
pub mod Early
pub mod Replay
mod Tests
use ttlive_cpp.Prelude.{
  ℕ, zero, suc, ◌+◌, Bool, true, false, not, ◌||◌, ◌&&◌, List, [], ◌∷◌, ◌++◌, Option, none, some,
  ◌==◌, ltb, if◌then◌else◌, length, get_elem?, codes,
}
use ttlive_cpp.Js.Text.{Text, same}
use ttlive_cpp.Slardar.Util.{Answer, pipe, then_on, includes, without}

pub data Moment : Type 0 where
  init start config before_destroy provide before_report report before_build build before_send send
        before_config :
      Moment

unfoldable pub index_of : Moment → ℕ
index_of init = 0
index_of start = 1
index_of config = 2
index_of before_destroy = 3
index_of provide = 4
index_of before_report = 5
index_of report = 6
index_of before_build = 7
index_of build = 8
index_of before_send = 9
index_of send = 10
index_of before_config = 11

module _ {ℓ} (E : Type ℓ) where
  pub record Client : Type ℓ where
    -- `l`, `d` and `p`
    pub inited : Bool
    pub started : Bool
    pub destroyed : Bool
    -- Of the settings manager: has it its settings, and does `start` wait for them?
    pub loaded : Bool
    pub waiting : Bool
    pub queue : List E
    pub hooks : Moment → List ℕ
    -- The names that were given to `provide`.
    pub provided : List Text
    -- What the sender was given, and what was taken out of a full queue.
    pub sent : List E
    pub spilled : List E

  -- What `init` finds: is the configuration accepted, is there a default for it, are the settings
  -- there without a request, and does `createSender` give a sender?
  pub record Setup : Type 0 where
    pub valid : Bool
    pub has_default : Bool
    pub local : Bool
    pub has_sender : Bool

  -- What is not the client's own: the hooks that get a value, those that only get a call, the
  -- functions in the client's `destroyAgent`, and the builder.
  pub record Program : Type ℓ where
    pub hook : ℕ → E → Client → Answer E × Client
    pub notify : ℕ → Client → Client
    pub tear_down : Client → Client
    pub builder : E → Option E

abbrev pub reserved : List Text
reserved =
    codes "getBuilder"
    ∷ codes "getSender"
    ∷ codes "getPreStartQueue"
    ∷ codes "init"
    ∷ codes "set"
    ∷ codes "config"
    ∷ codes "provide"
    ∷ codes "start"
    ∷ codes "report"
    ∷ codes "build"
    ∷ codes "send"
    ∷ codes "destroy"
    ∷ codes "on"
    ∷ codes "off"
    ∷ codes "destroyAgent"
    ∷ []

abbrev pub max_queue : ℕ
max_queue = 500

abbrev pub spill_size : ℕ
spill_size = 50

-- `v.splice(0, n)`: what is taken, and what is left.
module _ {ℓ} {E : Type ℓ} where
  unfoldable pub take : ℕ → List E → List E
  take zero xs = []
  take (suc n) [] = []
  take (suc n) (x ∷ xs) = x ∷ take n xs

  unfoldable pub drop : ℕ → List E → List E
  drop zero xs = xs
  drop (suc n) [] = []
  drop (suc n) (x ∷ xs) = drop n xs

  unfoldable pub set_hooks : Moment → List ℕ → Client E → Client E
  set_hooks m fs c = record c { hooks = λ n. if index_of n == index_of m then fs else c.hooks n }

  -- `v.push(t)`, and the fifty oldest are taken out once there are five hundred.
  unfoldable pub enqueue : E → Client E → Client E
  enqueue e c =
      let q = c.queue ++ (e ∷ []) in
      if ltb (length q) max_queue
      then record c { queue = q }
      else record c { queue = drop spill_size q; spilled = c.spilled ++ take spill_size q }

  -- Has the moment passed for good?
  unfoldable pub passed : Moment → Client E → Bool
  passed init c = c.inited
  passed start c = c.started
  passed before_destroy c = c.destroyed
  passed _ c = false

  module _ (p : Program E) where
    unfoldable pub notify_each : List ℕ → Client E → Client E
    notify_each [] c = c
    notify_each (f ∷ fs) c = notify_each fs (p.notify f c)

    -- `y(n, t)`: calls the hooks of a moment, and forgets them where `once` is set.
    unfoldable pub fire : Moment → Bool → Client E → Client E
    fire m once c = let c' = notify_each (c.hooks m) c in if once then set_hooks m [] c' else c'

    -- `I(s.m)(e)`
    unfoldable pub through : Moment → E → Client E → Option E × Client E
    through m e c = pipe p.hook (c.hooks m) e c

    unfoldable pub hand_over : E → Client E → Option E × Client E
    hand_over e c = (some e, fire send false (record c { sent = c.sent ++ (e ∷ []) }))

    unfoldable pub send_event : E → Client E → Client E
    send_event e c = if c.started then (then_on (through before_send e c) hand_over).1 else c

    -- The builder's event goes through the hooks of `build`; without one nothing is sent.
    unfoldable pub built : Option E → Client E → Option E × Client E
    built none c = (none, c)
    built (some e) c = through build e c

    unfoldable pub sent_on : E → Client E → Option E × Client E
    sent_on e c = (some e, send_event e c)

    unfoldable pub build_event : E → Client E → Client E
    build_event e c =
        if c.started
        then (then_on (then_on (through before_build e c) (λ e'. built (p.builder e'))) sent_on).1
        else c

    unfoldable pub accept : E → Client E → Option E × Client E
    accept e c = (some e, if c.started then build_event e c else enqueue e c)

    unfoldable pub report_event : E → Client E → Client E
    report_event e c = (then_on (then_on (through before_report e c) (through report)) accept).1

    -- `queue.forEach(build)`: an element that is gone by then is left out.
    abbrev pub build_at : Option E → Client E → Client E
    build_at none c = c
    build_at (some e) c = build_event e c

    unfoldable pub build_from : ℕ → ℕ → Client E → Client E
    build_from i zero c = c
    build_from i (suc left) c = build_from (suc i) left (build_at (get_elem? c.queue i) c)

    -- What `start` does when the settings are there.
    unfoldable pub begin : Client E → Client E
    begin c =
        let c = fire start true (record c { started = true }) in
        let c = build_from 0 (length c.queue) c in record c { queue = [] }

    unfoldable pub start_client : Client E → Client E
    start_client c =
        if c.inited && not c.started
        then if c.loaded then begin c else record c { waiting = true }
        else c

    -- The answer to the request for the settings.
    unfoldable pub settings_arrive : Client E → Client E
    settings_arrive c =
        let c = fire config false (record c { loaded = true }) in
        if c.waiting then begin (record c { waiting = false }) else c

    unfoldable pub init_client : Setup E → Client E → Client E
    init_client s c =
        if not c.inited && s.valid && s.has_default && s.has_sender
        then fire init true (record c { inited = true; loaded = s.local })
        else c

    -- `set`, and `config` with an argument.
    unfoldable pub set_config : Client E → Client E
    set_config c = if c.inited then fire config false (fire before_config false c) else c

    unfoldable pub provide_name : Text → Client E → Client E
    provide_name name c =
        if includes same reserved name
        then c
        else fire provide false (record c { provided = name ∷ c.provided })

    unfoldable pub destroy : Client E → Client E
    destroy c =
        let c = p.tear_down c in
        fire before_destroy true (record c { destroyed = true; queue = [] })

    unfoldable pub on : Moment → ℕ → Client E → Client E
    on m f c = if passed m c then p.notify f c else set_hooks m (c.hooks m ++ (f ∷ [])) c

  unfoldable pub off : Moment → ℕ → Client E → Client E
  off m f c = set_hooks m (without (◌==◌) (c.hooks m) f) c

-- The calls from outside, the answer to the request for the settings among them.
pub data Call {ℓ} (E : Type ℓ) : Type ℓ where
  do_init : Setup E → Call E
  do_start do_set do_settings do_destroy : Call E
  do_report do_build do_send : E → Call E
  do_provide : Text → Call E
  do_on do_off : Moment → ℕ → Call E

module _ {ℓ} {E : Type ℓ} (p : Program E) where
  unfoldable pub perform : Call E → Client E → Client E
  perform (do_init s) c = init_client p s c
  perform do_start c = start_client p c
  perform do_set c = set_config p c
  perform do_settings c = settings_arrive p c
  perform do_destroy c = destroy p c
  perform (do_report e) c = report_event p e c
  perform (do_build e) c = build_event p e c
  perform (do_send e) c = send_event p e c
  perform (do_provide name) c = provide_name p name c
  perform (do_on m f) c = on p m f c
  perform (do_off m f) c = off m f c

  unfoldable pub perform_all : List (Call E) → Client E → Client E
  perform_all [] c = c
  perform_all (call ∷ calls) c = perform_all calls (perform call c)

abbrev pub new_client {ℓ} : {E : Type ℓ} → Client E
new_client = record {
  inited = false;
  started = false;
  destroyed = false;
  loaded = false;
  waiting = false;
  queue = [];
  hooks = λ _. [];
  provided = [];
  sent = [];
  spilled = [];
}
