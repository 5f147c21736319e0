-- ===== src/Slardar/Batch.antt =====
-- The batching sender of js/browser.sg.js (the function `Wt`): events are collected and posted
-- together, by size, by time, or when the page goes away.
pub mod Order
pub mod Again
mod Tests
use ttlive_cpp.Prelude.{ℕ, ◌+◌, Bool, true, false, List, [], ◌∷◌, ◌++◌, if◌then◌else◌, length, leb}
use ttlive_cpp.Js.Text.{Text}

-- What the sender finds: `transport.useBeacon`, and `navigator.sendBeacon`.
pub record Page : Type 0 where
  pub use_beacon : Bool
  pub has_beacon : Bool

module _ {ℓ} (E : Type ℓ) where
  -- One request: where it goes, what it carries, and whether it is a beacon.
  pub record Post : Type ℓ where
    pub url : Text
    pub list : List E
    pub by_beacon : Bool

  pub record Sender : Type ℓ where
    pub size : ℕ
    pub wait : ℕ
    pub endpoint : Text
    pub buffer : List E
    -- Is the timer running?
    pub armed : Bool
    -- Has `send` been replaced by the one that posts beacons?
    pub beaconing : Bool
    -- Has the page gone away once?
    pub unloaded : Bool
    pub posts : List Post

module _ {ℓ} {E : Type ℓ} where
  unfoldable pub new_sender : ℕ → ℕ → Text → Sender E
  new_sender size wait endpoint = record {
    size = size;
    wait = wait;
    endpoint = endpoint;
    buffer = [];
    armed = false;
    beaconing = false;
    unloaded = false;
    posts = [];
  }

  -- The inner `d`: posts what has been collected, if there is anything.
  abbrev pub posted_list : List E → Bool → Sender E → Sender E
  posted_list [] beacon s = s
  posted_list (e ∷ es) beacon s = record s {
    posts = s.posts ++ (record { url = s.endpoint; list = e ∷ es; by_beacon = beacon } ∷ []);
  }

  unfoldable pub post_batch : Sender E → Sender E
  post_batch s = record (posted_list s.buffer false s) { buffer = [] }

  unfoldable pub set_size : ℕ → Sender E → Sender E
  set_size n s = record s { size = n }

  unfoldable pub set_wait : ℕ → Sender E → Sender E
  set_wait n s = record s { wait = n }

  unfoldable pub set_endpoint : Text → Sender E → Sender E
  set_endpoint u s = record s { endpoint = u }

  -- The `send` that the sender starts with.
  unfoldable pub collect : E → Sender E → Sender E
  collect e s =
      let s = record s { buffer = s.buffer ++ (e ∷ []) } in
      let s = if leb s.size (length s.buffer) then post_batch s else s in record s { armed = true }

  -- A beacon is dropped where the browser has none.
  unfoldable pub post_beacon : Page → List E → Sender E → Sender E
  post_beacon page es s = if page.has_beacon then posted_list es true s else s

  unfoldable pub send : Page → E → Sender E → Sender E
  send page e s = if s.beaconing then post_beacon page (e ∷ []) s else collect e s

  unfoldable pub flush : Sender E → Sender E
  flush s = post_batch (record s { armed = false })

  unfoldable pub time_out : Sender E → Sender E
  time_out s = if s.armed then post_batch (record s { armed = false }) else s

  unfoldable pub clear : Sender E → Sender E
  clear s = record s { armed = false; buffer = [] }

  abbrev pub hand_off : Page → List E → Sender E → Sender E
  hand_off page [] s = s
  hand_off page (e ∷ es) s = clear (post_beacon page (e ∷ es) s)

  -- `unload`, `beforeunload` or `pagehide`, of which only the first is heard.
  unfoldable pub unload : Page → Sender E → Sender E
  unload page s =
      if s.unloaded
      then s
      else if page.use_beacon
      then record (hand_off page s.buffer s) { beaconing = true; unloaded = true }
      else record (flush s) { unloaded = true }

  -- `visibilitychange` to a visible page, which is heard once after the first unload.
  unfoldable pub visible : Sender E → Sender E
  visible s = record s { beaconing = false }

pub data Call {ℓ} (E : Type ℓ) : Type ℓ where
  do_send : E → Call E
  do_flush do_time_out do_clear do_unload do_visible : Call E
  do_set_size do_set_wait : ℕ → Call E
  do_set_endpoint : Text → Call E

module _ {ℓ} {E : Type ℓ} (page : Page) where
  unfoldable pub perform : Call E → Sender E → Sender E
  perform (do_send e) s = send page e s
  perform do_flush s = flush s
  perform do_time_out s = time_out s
  perform do_clear s = clear s
  perform do_unload s = unload page s
  perform do_visible s = visible s
  perform (do_set_size n) s = set_size n s
  perform (do_set_wait n) s = set_wait n s
  perform (do_set_endpoint u) s = set_endpoint u s

  unfoldable pub perform_all : List (Call E) → Sender E → Sender E
  perform_all [] s = s
  perform_all (call ∷ calls) s = perform_all calls (perform call s)
