-- ===== src/Slardar/Batch/Again.antt =====
-- A page that goes away for a second time.
use ttlive_cpp.Prelude.{ℕ, ◌≡◌, true, false, List, [], ◌∷◌}
use ttlive_cpp.Slardar.Batch.{Post, Sender, Call, do_send, do_unload, do_visible}

-- What a page that came back does: it is given events, and goes away and comes back any number of
-- times.
pub data Later {ℓ} (E : Type ℓ) : Type ℓ where
  event : E → Later E
  leaves returns : Later E

module _ {ℓ} {E : Type ℓ} where
  abbrev pub call_of : Later E → Call E
  call_of (event e) = do_send e
  call_of leaves = do_unload
  call_of returns = do_visible

  abbrev pub calls_of : List (Later E) → List (Call E)
  calls_of [] = []
  calls_of (l ∷ ls) = call_of l ∷ calls_of ls

  abbrev pub events : List (Later E) → List E
  events [] = []
  events (event e ∷ ls) = e ∷ events ls
  events (leaves ∷ ls) = events ls
  events (returns ∷ ls) = events ls

  record IsBack (room : ℕ) (posts : List (Post E)) (waits : List E) (s : Sender E) : Type ℓ where
    gone : s.unloaded ≡ true
    plain : s.beaconing ≡ false
    same : s.posts ≡ posts
    kept : s.buffer ≡ waits
    size : s.size ≡ room
