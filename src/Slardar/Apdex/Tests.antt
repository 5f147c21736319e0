-- ===== src/Slardar/Apdex/Tests.antt =====
-- Scores of a few events.
use ttlive_cpp.Prelude.{◌+◌, ◌≡◌, refl, false, true, List, [], ◌∷◌, none, some, codes}
use ttlive_cpp.Slardar.Apdex.{
  Weights, Measured, js_error, http, longtasks, performance, no_score, measure, add_error,
  add_longtasks, add_duration, add_perf, level_of, count_perf, count_duration, rank,
}
use ttlive_cpp.Slardar.Apdex.Counts.{errors_in, measure_all, measure_all-error}

abbrev weights : Weights
weights = record {
  perf_apdex = λ name. some (record {
    satisfied = 100;
    tolerable = 400;
    good_weight = 1;
    fair_weight = 1;
    bad_weight = 1;
  });
  duration_apdex = λ kind. some (record {
    satisfied = 50;
    tolerable = 200;
    good_weight = 2;
    fair_weight = 2;
    bad_weight = 2;
  });
  error_weight = some (λ kind. 5);
  frustrating_threshold = 500;
  satisfying_threshold = 700;
}

abbrev events : List Measured
events =
    js_error
    ∷ http false 404 none
    ∷ http false 200 (some 300)
    ∷ longtasks (60 ∷ 250 ∷ [])
    ∷ performance (codes "fcp") true 40
    ∷ []

measure_all-error_case :
    (measure_all weights events no_score).error_count 1
    ≡ no_score.error_count 1 + errors_in 1 events
measure_all-error_case = measure_all-error 1 weights (λ kind. 5) refl events no_score

frustrating : rank weights (measure_all weights events no_score) ≡ 2
unfolding measure_all measure add_error add_longtasks add_duration add_perf level_of count_perf
    count_duration rank
frustrating = refl

-- No experience at all is a satisfying one.
satisfying : rank weights no_score ≡ 0
unfolding rank
satisfying = refl
