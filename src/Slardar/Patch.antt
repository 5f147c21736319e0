-- ===== src/Slardar/Patch.antt =====
-- How js/browser.sg.js wraps a method of an object and takes the wrapper off again (`h` and `s`).
-- A wrapper is known by its place in the order of creation; what it does beside calling the function
-- that it wraps is left out.
pub mod Laws
pub mod Watching
mod Tests
use ttlive_cpp.Prelude.{ℕ, Bool, true, false, List, [], ◌∷◌, not, ◌&&◌, ◌==◌, if◌then◌else◌, length}

pub data Method : Type 0 where
  native : Method
  wrapper : ℕ → Method

-- `e`, the method that was there, and whether `r` is still the wrapper's own function.
pub record Patch : Type 0 where
  pub old : Method
  pub active : Bool

-- The object's property, and the patches, the latest first.
pub record Slot : Type 0 where
  pub current : Method
  pub patches : List Patch

abbrev pub untouched : Slot
untouched = record { current = native; patches = [] }

abbrev pub is_wrapper : Method → ℕ → Bool
is_wrapper native k = false
is_wrapper (wrapper j) k = j == k

unfoldable pub patch : Slot → Slot
patch s = record {
  current = wrapper (length s.patches);
  patches = record { old = s.current; active = true } ∷ s.patches;
}

unfoldable pub old_of : ℕ → List Patch → Method
old_of k [] = native
old_of k (p ∷ ps) = if length ps == k then p.old else old_of k ps

-- `r = e`
unfoldable pub deactivate : ℕ → List Patch → List Patch
deactivate k [] = []
deactivate k (p ∷ ps) = record p { active = p.active && not (length ps == k) } ∷ deactivate k ps

-- The function that `s` gives back; that of `h` does nothing for an argument that is set.
unfoldable pub restore : ℕ → Slot → Slot
restore k s =
    if is_wrapper s.current k
    then record s { current = old_of k s.patches }
    else record s { patches = deactivate k s.patches }

unfoldable pub restore_unless : Bool → ℕ → Slot → Slot
restore_unless keep k s = if keep then s else restore k s

-- The wrappers that a call of the method goes through, the outermost first.
abbrev pub chosen : Bool → Bool → ℕ → List ℕ → List ℕ → List ℕ
chosen false active k inner other = other
chosen true false k inner other = inner
chosen true true k inner other = k ∷ inner

unfoldable pub seen_by : List Patch → Method → List ℕ
seen_by [] m = []
seen_by (p ∷ ps) m =
    chosen (is_wrapper m (length ps)) p.active (length ps) (seen_by ps p.old) (seen_by ps m)

pub data Change : Type 0 where
  wrap : Change
  unwrap : Bool → ℕ → Change

unfoldable pub change : Change → Slot → Slot
change wrap s = patch s
change (unwrap keep k) s = restore_unless keep k s

unfoldable pub change_all : List Change → Slot → Slot
change_all [] s = s
change_all (c ∷ cs) s = change_all cs (change c s)
