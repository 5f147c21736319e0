-- ===== src/Slardar/Util.antt =====
-- The helpers of js/browser.sg.js: `S` (is it in the array), `R` (the array without it), and `I`,
-- which hands a value through a chain of hooks.
use ttlive_cpp.Prelude.{ℕ, Bool, true, false, List, [], ◌∷◌, Option, none, some, if◌then◌else◌}

module _ {ℓ} {A : Type ℓ} (eq : A → A → Bool) where
  unfoldable pub includes : List A → A → Bool
  includes [] t = false
  includes (x ∷ xs) t = if eq x t then true else includes xs t

  -- Only the first occurrence goes.
  unfoldable pub without : List A → A → List A
  without [] t = []
  without (x ∷ xs) t = if eq x t then xs else x ∷ without xs t

-- What a hook does with a value: it throws, gives back something falsy, or gives a value.
pub data Answer {ℓ} (A : Type ℓ) : Type ℓ where
  threw falsy : Answer A
  gave : A → Answer A

abbrev pub then_on {ℓ κ μ} :
    {A : Type ℓ} {B : Type κ} {S : Type μ} → Option A × S → (A → S → Option B × S) → Option B × S
then_on (none, s) next = (none, s)
then_on (some a, s) next = next a s

module _ {ℓ κ} {A : Type ℓ} {S : Type κ} (call : ℕ → A → S → Answer A × S) where
  -- The value and the state behind one hook; a hook that throws leaves the value as it was.
  abbrev pub answered : A → Answer A × S → Option A × S
  answered a (threw, s) = (some a, s)
  answered a (falsy, s) = (none, s)
  answered a (gave b, s) = (some b, s)

  unfoldable pub pipe : List ℕ → A → S → Option A × S
  pipe [] a s = (some a, s)
  pipe (f ∷ fs) a s = then_on (answered a (call f a s)) (pipe fs)

-- What one step of a chain keeps, the chain keeps.
module _ {ℓ κ μ ν} {A : Type ℓ} {B : Type κ} {S : Type μ} (P : S → Type ν) where
  pub then_on_keeps :
      (r : Option A × S) (next : A → S → Option B × S)
      → P r.1
      → ((a : A) (s : S) → P s → P (next a s).1)
      → P (then_on r next).1
  then_on_keeps (none, s) next h keep = h
  then_on_keeps (some a, s) next h keep = keep a s h

module _ {ℓ κ ν} {A : Type ℓ} {S : Type κ} (call : ℕ → A → S → Answer A × S) (P : S → Type ν) where
  answered_keeps : (a : A) (r : Answer A × S) → P r.1 → P (answered call a r).1
  answered_keeps a (threw, s) h = h
  answered_keeps a (falsy, s) h = h
  answered_keeps a (gave b, s) h = h

  pub pipe_keeps :
      ((f : ℕ) (a : A) (s : S) → P s → P (call f a s).1)
      → (fs : List ℕ) (a : A) (s : S) → P s
      → P (pipe call fs a s).1
  unfolding pipe
  pipe_keeps keep [] a s h = h
  pipe_keeps keep (f ∷ fs) a s h =
      then_on_keeps P (answered call a (call f a s)) (pipe call fs)
        (answered_keeps a (call f a s) (keep f a s h)) (pipe_keeps keep fs)
