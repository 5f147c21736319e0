-- ===== src/Slardar/Session/Tests.antt =====
-- A session of three pages, and one that is hidden.
use ttlive_cpp.Prelude.{◌-◌, ◌≡◌, refl, true, false, [], ◌∷◌, none, some, codes, arith}
use ttlive_cpp.Slardar.Apdex.{Weights}
use ttlive_cpp.Slardar.Session.{
  Watch, set_hidden, take, unload, new_page, close_page, summary, set_apdex, hide_or_show,
}
use ttlive_cpp.Slardar.Session.Time.{Pages, visit_all, begun, take-hidden, unload-visit_all}

abbrev no_weights : Weights
no_weights = record {
  perf_apdex = λ name. none;
  duration_apdex = λ kind. none;
  error_weight = none;
  frustrating_threshold = 500;
  satisfying_threshold = 700;
}

abbrev pages : Pages
pages = (codes "/b", codes "v2", 30) ∷ (codes "/c", codes "v3", 75) ∷ []

unload-visit_all_example :
    (unload false true 100
      (visit_all pages (begun no_weights (codes "/a") (codes "v1") 10))).tally.time_spent
    ≡ 100 - 10
unload-visit_all_example =
    unload-visit_all no_weights (codes "/a") (codes "v1") 10 100 true pages
      (omega arith, (omega arith, omega arith))

three_pages :
    (unload false true 100
      (visit_all pages (begun no_weights (codes "/a") (codes "v1") 10))).tally.p_count
    ≡ 3
unfolding visit_all new_page close_page summary take unload set_apdex hide_or_show
three_pages = refl

abbrev running_watch : Watch
running_watch = record { spent = 0; since = some 10 }

take-hidden_case : (take 90 (take 50 (set_hidden true 20 running_watch)).1).0 ≡ 90 - 50
take-hidden_case = take-hidden running_watch 20 50 90
