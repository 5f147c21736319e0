-- ===== src/Slardar/Visitor.antt =====
-- The ids of a visitor in js/browser.sg.js: `On` stores a record with the time at which it expires, `Rn`
-- reads it back, `ye` takes the ids from there or makes new ones, and `onReady` of `we` stores them.
-- Times are whole numbers.
pub mod Return
mod Tests
use ttlive_cpp.Prelude.{
  ℕ, zero, suc, ◌+◌, Bool, true, false, List, [], ◌∷◌, Option, none, some, if◌then◌else◌, leb, ◌==◌,
  ◌&&◌,
}
use ttlive_cpp.Js.Text.{Text}
use ttlive_cpp.Shim.Base64.{atob, btoa}
use ttlive_cpp.Js.Object.{Dict, own, put}

pub record Ids : Type 0 where
  pub user : Text
  pub device : Text

-- What a stored record has of them.
pub record Stored : Type 0 where
  pub user : Option Text
  pub device : Option Text

-- The text of a record that expires, JSON that `encodeURI` has made ASCII, and its reading, which may
-- fail, as may the reading of plain JSON; and whether the storage takes what it is given. Base64 is that
-- of the fake browser.
pub record Browser : Type 0 where
  pub text : Stored → ℕ → Text
  pub read : Text → Option (Stored × Option ℕ)
  pub parse : Text → Option Stored
  pub writable : Bool

-- `Sn`, of `false`, `true`, nothing or a number.
pub data Expiry : Type 0 where
  disabled enabled unset : Expiry
  lasting : ℕ → Expiry

abbrev pub default_expiry : ℕ
default_expiry = 7776000000

abbrev pub expiry_of : Expiry → ℕ
expiry_of disabled = 0
expiry_of enabled = default_expiry
expiry_of unset = default_expiry
expiry_of (lasting n) = n

-- `On`
unfoldable pub save : Browser → Text → Stored → ℕ → ℕ → Dict Text → Dict Text
save b key stored ttl now d =
    if ttl == 0 then d else if b.writable then put key (btoa (b.text stored (now + ttl))) d else d

-- `Rn`
abbrev pub unexpired : ℕ → Option (Stored × Option ℕ) → Option Stored
unexpired now none = none
unexpired now (some (stored, none)) = none
unexpired now (some (stored, some expires)) = if leb now expires then some stored else none

abbrev pub read_text : Browser → Option Text → Option (Stored × Option ℕ)
read_text b none = none
read_text b (some t) = b.read (atob t)

unfoldable pub load : Browser → Text → ℕ → Dict Text → Option Stored
load b key now d = unexpired now (read_text b (own key d))

-- A record in plain JSON is stored anew.
abbrev pub is_plain : Text → Bool
is_plain [] = false
is_plain (c ∷ s) = c == b'{'

abbrev pub save_parsed : Browser → Text → Option Stored → ℕ → ℕ → Dict Text → Dict Text
save_parsed b key none ttl now d = d
save_parsed b key (some stored) ttl now d = save b key stored ttl now d

abbrev pub migrate_text : Browser → Text → Option Text → ℕ → ℕ → Dict Text → Dict Text
migrate_text b key none ttl now d = d
migrate_text b key (some t) ttl now d =
    if is_plain t then save_parsed b key (b.parse t) ttl now d else d

unfoldable pub migrate : Browser → Text → ℕ → ℕ → Dict Text → Dict Text
migrate b key ttl now d = migrate_text b key (own key d) ttl now d

-- What is empty counts as missing.
abbrev pub or_fresh : Option Text → Text → Text
or_fresh none fresh = fresh
or_fresh (some []) fresh = fresh
or_fresh (some (c ∷ s)) fresh = c ∷ s

abbrev pub completed : Option Stored → Ids → Ids
completed none fresh = fresh
completed (some s) fresh = record {
  user = or_fresh s.user fresh.user;
  device = or_fresh s.device fresh.device;
}

-- `ye`, with the ids that it makes.
unfoldable pub ids_of : Browser → Text → ℕ → ℕ → Ids → Dict Text → Ids × Dict Text
ids_of b key ttl now fresh d =
    let kept = migrate b key ttl now d in
    if ttl == 0 then (fresh, d) else (completed (load b key now kept) fresh, kept)

abbrev pub stored_ids : Ids → Stored
stored_ids i = record { user = some i.user; device = some i.device }

-- A visit: the ids are taken, and stored when the monitor is ready.
unfoldable pub visit : Browser → Text → ℕ → ℕ → Ids → Dict Text → Ids × Dict Text
visit b key ttl now fresh d =
    let r = ids_of b key ttl now fresh d in (r.0, save b key (stored_ids r.0) ttl now r.1)

unfoldable pub visit_all : Browser → Text → ℕ → List (ℕ × Ids) → Dict Text → List Ids
visit_all b key ttl [] d = []
visit_all b key ttl ((now, fresh) ∷ vs) d =
    let r = visit b key ttl now fresh d in r.0 ∷ visit_all b key ttl vs r.1
