-- ===== src/Slardar/Apdex.antt =====
-- The scores of js/browser.sg.js: `ht` counts good, fair and bad experiences, `vt` says what an event
-- counts for, and `pt` ranks the counts. Durations and weights are whole numbers, and the thresholds
-- of the ranks are thousandths.
pub mod Counts
mod Tests
use ttlive_cpp.Prelude.{
  ℕ, zero, suc, ◌+◌, ◌*◌, Bool, true, false, not, ◌&&◌, ◌||◌, List, [], ◌∷◌, ◌++◌, Option, none,
  some, if◌then◌else◌, ltb, leb, ◌==◌, codes,
}
use ttlive_cpp.Js.Text.{Text, same}

-- The two thresholds of a measure, and the weights of its three levels.
pub record Levels : Type 0 where
  pub satisfied : ℕ
  pub tolerable : ℕ
  pub good_weight : ℕ
  pub fair_weight : ℕ
  pub bad_weight : ℕ

-- The configuration: what it has for each name and each kind.
pub record Weights : Type 0 where
  pub perf_apdex : Text → Option Levels
  pub duration_apdex : ℕ → Option Levels
  pub error_weight : Option (ℕ → ℕ)
  pub frustrating_threshold : ℕ
  pub satisfying_threshold : ℕ

pub data Level : Type 0 where
  good fair bad : Level

-- `o`, and the counts in `i`: of errors by kind, of bad durations by kind, and of named measures
-- by level.
pub record Score : Type 0 where
  pub goods : ℕ
  pub fairs : ℕ
  pub bads : ℕ
  pub error_count : ℕ → ℕ
  pub duration_count : ℕ → ℕ
  pub perf_count : Text → Level → ℕ

abbrev pub no_score : Score
no_score = record {
  goods = 0;
  fairs = 0;
  bads = 0;
  error_count = λ _. 0;
  duration_count = λ _. 0;
  perf_count = λ _ _. 0;
}

unfoldable pub level_of : Levels → ℕ → Level
level_of l e = if ltb e l.satisfied then good else if ltb l.tolerable e then bad else fair

abbrev pub weigh : Levels → Level → Score → Score
weigh l good s = record s { goods = s.goods + l.good_weight }
weigh l fair s = record s { fairs = s.fairs + l.fair_weight }
weigh l bad s = record s { bads = s.bads + l.bad_weight }

abbrev pub is_level : Level → Level → Bool
is_level good good = true
is_level fair fair = true
is_level bad bad = true
is_level _ _ = false

abbrev pub count_one : Bool → ℕ → ℕ
count_one true n = n + 1
count_one false n = n

-- `i.perf_apdex[t + "_" + n]`
unfoldable pub count_perf : Text → Level → Score → Score
count_perf name level s = record s {
  perf_count = λ n k. count_one (same n name && is_level k level) (s.perf_count n k);
}

unfoldable pub count_duration : ℕ → Score → Score
count_duration kind s = record s {
  duration_count = λ k. count_one (k == kind) (s.duration_count k);
}

-- The first function of `ht`, for a name and for a kind; what takes no time counts for nothing.
abbrev pub add_perf_at : Option Levels → Text → ℕ → Score → Score
add_perf_at none name e s = s
add_perf_at (some l) name e s =
    if e == 0 then s else count_perf name (level_of l e) (weigh l (level_of l e) s)

abbrev pub bad_duration : ℕ → Level → Score → Score
bad_duration kind bad s = count_duration kind s
bad_duration kind _ s = s

abbrev pub add_duration_at : Option Levels → ℕ → ℕ → Score → Score
add_duration_at none kind e s = s
add_duration_at (some l) kind e s =
    if e == 0 then s else bad_duration kind (level_of l e) (weigh l (level_of l e) s)

unfoldable pub add_perf : Weights → Text → ℕ → Score → Score
add_perf w name e s = add_perf_at (w.perf_apdex name) name e s

unfoldable pub add_duration : Weights → ℕ → ℕ → Score → Score
add_duration w kind e s = add_duration_at (w.duration_apdex kind) kind e s

-- The second function of `ht`.
abbrev pub add_error_at : Option (ℕ → ℕ) → ℕ → Score → Score
add_error_at none kind s = s
add_error_at (some weight) kind s = record s {
  bads = s.bads + weight kind;
  error_count = λ k. count_one (k == kind) (s.error_count k);
}

unfoldable pub add_error : Weights → ℕ → Score → Score
add_error w kind s = add_error_at w.error_weight kind s

-- The events that count, with what is read of them.
pub data Measured : Type 0 where
  performance : Text → Bool → ℕ → Measured
  action : ℕ → Measured
  js_error resource_error blank_screen other : Measured
  http : Bool → ℕ → Option ℕ → Measured
  resource : ℕ → Measured
  longtasks : List ℕ → Measured

unfoldable pub add_longtasks : Weights → List ℕ → Score → Score
add_longtasks w [] s = s
add_longtasks w (d ∷ ds) s = add_longtasks w ds (add_duration w 2 d s)

abbrev pub add_timing : Weights → Option ℕ → Score → Score
add_timing w none s = s
add_timing w (some d) s = add_duration w 0 d s

unfoldable pub measure : Weights → Measured → Score → Score
measure w (performance name is_support value) s = if is_support then add_perf w name value s else s
measure w (action duration) s = add_perf w (codes "action") duration s
measure w js_error s = add_error w 0 s
measure w (http custom_error status timing) s =
    if custom_error || leb 400 status then add_error w 1 s else add_timing w timing s
measure w resource_error s = add_error w 2 s
measure w blank_screen s = add_error w 3 s
measure w (resource duration) s = add_duration w 1 duration s
measure w (longtasks ds) s = add_longtasks w ds s
measure w other s = s

-- `pt`: 2 for a frustrating page, 0 for a satisfying one or one without any experience, else 1. A
-- share of nothing is no number, and no comparison with it holds.
unfoldable pub rank : Weights → Score → ℕ
rank w s =
    let total = s.goods + s.fairs + s.bads in
    if ltb (w.frustrating_threshold * total) (s.bads * 1000) && not (total == 0)
    then 2
    else if (ltb (w.satisfying_threshold * total) (s.goods * 1000) && not (total == 0))
        || (total == 0)
    then 0
    else 1
