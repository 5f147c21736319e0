-- ===== src/Slardar/Apdex/Counts.antt =====
-- The error counts of a score are those of the events.
use ttlive_cpp.Prelude.{
  ℕ, ◌+◌, ◌≡◌, refl, ap, ◌∙◌, ◌||◌, List, [], ◌∷◌, Option, none, some, if◌then◌else◌, if_has, leb,
  ◌==◌, arith, codes, Bool-cases, inl, inr,
}
use ttlive_cpp.Js.Text.{Text}
use ttlive_cpp.Slardar.Apdex.{
  Levels, Weights, Score, Level, good, fair, bad, level_of, weigh, count_perf, count_duration,
  add_perf_at, bad_duration, add_duration_at, add_perf, add_duration, add_error, add_error_at,
  Measured, performance, action, js_error, resource_error, blank_screen, other, http, resource,
  longtasks, add_longtasks, add_timing, measure,
}

-- The kind of error that an event is.
abbrev pub error_kind : Measured → Option ℕ
error_kind js_error = some 0
error_kind (http custom_error status timing) =
    if custom_error || leb 400 status then some 1 else none
error_kind resource_error = some 2
error_kind blank_screen = some 3
error_kind _ = none

abbrev pub is_kind : ℕ → Option ℕ → ℕ
is_kind k none = 0
is_kind k (some j) = if k == j then 1 else 0

abbrev pub errors_in : ℕ → List Measured → ℕ
errors_in k [] = 0
errors_in k (ev ∷ evs) = is_kind k (error_kind ev) + errors_in k evs

unfoldable pub measure_all : Weights → List Measured → Score → Score
measure_all w [] s = s
measure_all w (ev ∷ evs) s = measure_all w evs (measure w ev s)

module _ (k : ℕ) where
  -- A step that counts `n` errors of the kind.
  Errs : ℕ → Score → Score → Type 0
  Errs n s s' = s'.error_count k ≡ s.error_count k + n

  weigh-error :
      (l : Levels) (level : Level) (s : Score) → (weigh l level s).error_count k ≡ s.error_count k
  weigh-error l good s = refl
  weigh-error l fair s = refl
  weigh-error l bad s = refl

  bad-error :
      (kind : ℕ) (level : Level) (s : Score)
      → (bad_duration kind level s).error_count k ≡ s.error_count k
  unfolding count_duration
  bad-error kind good s = refl
  bad-error kind fair s = refl
  bad-error kind bad s = refl

  perf-error :
      (o : Option Levels) (name : Text) (e : ℕ) (s : Score) → Errs 0 s (add_perf_at o name e s)
  unfolding Errs count_perf
  perf-error none name e s = omega arith
  perf-error (some l) name e s =
      if_has (Errs 0 s) (e == 0) (λ _. omega arith)
        (λ _. omega (arith, weigh-error l (level_of l e) s))

  duration-error :
      (o : Option Levels) (kind e : ℕ) (s : Score) → Errs 0 s (add_duration_at o kind e s)
  unfolding Errs
  duration-error none kind e s = omega arith
  duration-error (some l) kind e s =
      if_has (Errs 0 s) (e == 0) (λ _. omega arith)
        (λ _. omega (
          arith,
          bad-error kind (level_of l e) (weigh l (level_of l e) s),
          weigh-error l (level_of l e) s,
        ))

  longtasks-error : (w : Weights) (ds : List ℕ) (s : Score) → Errs 0 s (add_longtasks w ds s)
  unfolding add_longtasks add_duration Errs
  longtasks-error w [] s = omega arith
  longtasks-error w (d ∷ ds) s = omega (
    arith,
    duration-error (w.duration_apdex 2) 2 d s,
    longtasks-error w ds (add_duration w 2 d s),
  )

  timing-error : (w : Weights) (o : Option ℕ) (s : Score) → Errs 0 s (add_timing w o s)
  unfolding add_duration Errs
  timing-error w none s = omega arith
  timing-error w (some d) s = duration-error (w.duration_apdex 0) 0 d s

  module _ (w : Weights) (weight : ℕ → ℕ) (has : w.error_weight ≡ some weight) where
    count-error : (kind : ℕ) (s : Score) → Errs (is_kind k (some kind)) s (add_error w kind s)
    unfolding add_error Errs
    count-error kind s =
        ap (λ o. (add_error_at o kind s).error_count k) has ∙ (elim (Bool-cases (k == kind)) [
          | inl e ↦ rw e (omega arith)
          | inr e ↦ rw e (omega arith)
        ])

    Errs-of : Measured → Score → Score → Type 0
    Errs-of ev = Errs (is_kind k (error_kind ev))

    measure-error :
        (ev : Measured) (s : Score) → Errs (is_kind k (error_kind ev)) s (measure w ev s)
    unfolding measure add_perf add_duration Errs
    measure-error (performance name is_support value) s =
        if_has (Errs 0 s) is_support (λ _. perf-error (w.perf_apdex name) name value s)
          (λ _. omega arith)
    measure-error (action duration) s =
        perf-error (w.perf_apdex (codes "action")) (codes "action") duration s
    measure-error js_error s = count-error 0 s
    measure-error (http custom_error status timing) s =
        elim (Bool-cases (custom_error || leb 400 status)) [
          | inl e ↦ rw e (count-error 1 s)
          | inr e ↦ rw e (timing-error w timing s)
        ]
    measure-error resource_error s = count-error 2 s
    measure-error blank_screen s = count-error 3 s
    measure-error (resource duration) s = duration-error (w.duration_apdex 1) 1 duration s
    measure-error (longtasks ds) s = longtasks-error w ds s
    measure-error other s = omega arith

    -- Where the configuration weighs errors: over any events a score counts the errors of each kind
    -- that they are, of requests those with a custom error or a status from 400 on, and no other.
    pub measure_all-error :
        (evs : List Measured) (s : Score)
        → (measure_all w evs s).error_count k ≡ s.error_count k + errors_in k evs
    unfolding measure_all Errs
    measure_all-error [] s = omega arith
    measure_all-error (ev ∷ evs) s =
        omega (arith, measure-error ev s, measure_all-error evs (measure w ev s))
