-- ===== src/Slardar/Settings.antt =====
-- How js/browser.sg.js gets the settings of the server (in `we`): one request, with retries on a slow
-- network, a wait for the network where there is none, and what was stored or a default otherwise.
-- The browser adds one listener for the same function only once.
pub mod Answer
mod Tests
use ttlive_cpp.Prelude.{
  ℕ, zero, suc, ◌+◌, ◌-◌, Bool, true, false, not, ◌&&◌, List, [], ◌∷◌, ◌++◌, Option, none, some,
  if◌then◌else◌, ltb, ◌==◌,
}

module _ {ℓ} (S : Type ℓ) where
  pub record Fetch : Type ℓ where
    -- `p`, and the requests and the timers that are under way.
    pub tries : ℕ
    pub requests : ℕ
    pub timers : ℕ
    -- Is `online` listened to?
    pub listening : Bool
    -- `v`
    pub done : Bool
    -- What the caller and the storage were given.
    pub delivered : List S
    pub saved : List S

  -- What the page has stored, what it falls back to, and whether it stores what it gets.
  pub record Local : Type ℓ where
    pub stored : Option S
    pub fallback : S
    pub keeps : Bool

-- A failure: of the network or another, on a slow network, in a window, without a network.
pub record Failure : Type 0 where
  pub network : Bool
  pub slow : Bool
  pub windowed : Bool
  pub offline : Bool

pub data Event {ℓ} (S : Type ℓ) : Type ℓ where
  succeeded : S → Event S
  failed : Failure → Event S
  timer online : Event S

abbrev pub max_tries : ℕ
max_tries = 3

module _ {ℓ} {S : Type ℓ} where
  unfoldable pub request : Fetch S → Fetch S
  request f = record f { tries = f.tries + 1; requests = f.requests + 1 }

  -- `h` at the start.
  unfoldable pub fetch : Fetch S
  unfolding request
  fetch = request (record {
    tries = 0;
    requests = 0;
    timers = 0;
    listening = false;
    done = false;
    delivered = [];
    saved = [];
  })

  -- `g`
  unfoldable pub deliver : Local S → S → Bool → Fetch S → Fetch S
  deliver l s fresh f = if f.done then f else record f {
    done = true;
    listening = false;
    delivered = f.delivered ++ (s ∷ []);
    saved = if fresh && l.keeps then f.saved ++ (s ∷ []) else f.saved;
  }

  -- `m`
  abbrev pub recover : Local S → Option S → Failure → Fetch S → Fetch S
  recover l (some s) e f = deliver l s false f
  recover l none e f =
      if ltb f.tries max_tries && (e.network && (e.slow && e.windowed))
      then record f { timers = f.timers + 1 }
      else if e.offline
      then record f { listening = true }
      else deliver l l.fallback false f

  -- One request less; without one there is no answer.
  abbrev pub answered : ℕ → (Fetch S → Fetch S) → Fetch S → Fetch S
  answered zero next f = f
  answered (suc n) next f = next (record f { requests = n })

  abbrev pub timed_out : ℕ → Fetch S → Fetch S
  timed_out zero f = f
  timed_out (suc n) f = request (record f { timers = n })

  unfoldable pub handle : Local S → Event S → Fetch S → Fetch S
  handle l (succeeded s) f = answered f.requests (deliver l s true) f
  handle l (failed e) f = answered f.requests (recover l l.stored e) f
  handle l timer f = timed_out f.timers f
  handle l online f = if f.listening then request f else f

  unfoldable pub handle_all : Local S → List (Event S) → Fetch S → Fetch S
  handle_all l [] f = f
  handle_all l (e ∷ es) f = handle_all l es (handle l e f)
