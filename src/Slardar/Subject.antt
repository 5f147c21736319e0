-- ===== src/Slardar/Subject.antt =====
-- The subjects of js/browser.sg.js (`N`, and `q` for what it hands on): observers come and go, and a
-- subject without any closes when its timer runs out. Functions are known by their identities.
pub mod Closing
mod Tests
use ttlive_cpp.Prelude.{
  ℕ, Bool, true, false, List, [], ◌∷◌, ◌++◌, Option, none, some, ◌==◌, if◌then◌else◌,
}
use ttlive_cpp.Slardar.Util.{without}

-- What `attach` was given: the function that ends the source, and perhaps one for new observers.
pub record Source : Type 0 where
  pub stop : ℕ
  pub welcome : Option ℕ

-- A call that the subject has made: of the source's functions, or of a `complete` function.
pub data Made : Type 0 where
  stopped completed : ℕ → Made
  welcomed : ℕ → ℕ → Made

pub record Subject : Type 0 where
  -- Was the waiting time -1, for a subject that never closes?
  pub lasting : Bool
  pub source : Option Source
  pub observers : List ℕ
  pub completes : List ℕ
  pub closed : Bool
  -- Is the timer running?
  pub armed : Bool
  pub made : List Made

unfoldable pub new_subject : Bool → Subject
new_subject lasting = record {
  lasting = lasting;
  source = none;
  observers = [];
  completes = [];
  closed = false;
  armed = false;
  made = [];
}

abbrev pub is_nil : List ℕ → Bool
is_nil [] = true
is_nil (x ∷ xs) = false

-- The inner `s`: the timer runs while there are no observers.
unfoldable pub watch : Subject → Subject
watch s = if s.lasting then s else record s { armed = is_nil s.observers }

abbrev pub greet : Option Source → ℕ → List Made
greet none n = []
greet (some src) n = elim (src.welcome) [ none ↦ [] | some w ↦ welcomed w n ∷ [] ]

-- `none`: the subject is closed, and the call throws.
unfoldable pub subscribe : ℕ → Subject → Option Subject
subscribe n s =
    if s.closed
    then none
    else some (
        watch (record s { observers = s.observers ++ (n ∷ []); made = s.made ++ greet s.source n }))

unfoldable pub unsubscribe : ℕ → Subject → Subject
unsubscribe n s =
    let s = record s { observers = without (◌==◌) s.observers n } in if s.closed then s else watch s

abbrev pub stop_source : Option Source → List Made
stop_source none = []
stop_source (some src) = stopped src.stop ∷ []

abbrev pub all_completed : List ℕ → List Made
all_completed [] = []
all_completed (f ∷ fs) = completed f ∷ all_completed fs

-- The inner `o`, when the timer has run out.
unfoldable pub time_out : Subject → Subject
time_out s =
    if s.armed
    then record s {
      closed = true;
      armed = false;
      source = none;
      completes = [];
      made = s.made ++ (stop_source s.source ++ all_completed s.completes);
    }
    else s

unfoldable pub complete : ℕ → Subject → Subject
complete f s = record s { completes = s.completes ++ (f ∷ []) }

unfoldable pub attach : Source → Subject → Subject
attach src s = record s { source = some src }

-- `q(v, fs)`: the functions are called with the value, and those that they give back are called with
-- the next one. A function that throws gives nothing back.
module _ {ℓ} {V : Type ℓ} (answer : ℕ → V → Option ℕ) where
  abbrev pub kept : Option ℕ → List ℕ → List ℕ
  kept none fs = fs
  kept (some f) fs = f ∷ fs

  unfoldable pub next_round : V → List ℕ → List ℕ
  next_round v [] = []
  next_round v (f ∷ fs) = kept (answer f v) (next_round v fs)

  unfoldable pub relay : List V → List ℕ → List ℕ
  relay [] fs = fs
  relay (v ∷ vs) fs = relay vs (next_round v fs)

pub data Call : Type 0 where
  do_subscribe do_unsubscribe do_complete : ℕ → Call
  do_attach : Source → Call
  do_time_out : Call

abbrev pub or_same : Subject → Option Subject → Subject
or_same s none = s
or_same s (some s') = s'

unfoldable pub perform : Call → Subject → Subject
perform (do_subscribe n) s = or_same s (subscribe n s)
perform (do_unsubscribe n) s = unsubscribe n s
perform (do_complete f) s = complete f s
perform (do_attach src) s = attach src s
perform do_time_out s = time_out s

unfoldable pub perform_all : List Call → Subject → Subject
perform_all [] s = s
perform_all (c ∷ cs) s = perform_all cs (perform c s)
