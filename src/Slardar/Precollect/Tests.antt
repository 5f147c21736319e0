-- ===== src/Slardar/Precollect/Tests.antt =====
-- Errors before and after their plug-in.
use ttlive_cpp.Prelude.{ℕ, true, false, ◌≡◌, refl, List, [], ◌∷◌, if◌then◌else◌}
use ttlive_cpp.Slardar.Precollect.{
  st, err, reject, capture_exception, Options, Item, new_state, set_waiting, call, collect,
  call_each, release, release_each, provide, is_wanted, observe, Op, observed, left, came, Early,
  pushed, asked, run, perform, perform_all,
}
use ttlive_cpp.Slardar.Precollect.Steps.{calls_for, belongs}
use ttlive_cpp.Slardar.Precollect.Order.{comes, early, perform_all-early}
use ttlive_cpp.Slardar.Precollect.Init.{run-calls}

abbrev item : ℕ → Item ℕ
item n = record { content = n; context = 0 }

abbrev all_on : Options
all_on = record { onerror = true; onunhandledrejection = true }

abbrev ops : List (Op ℕ)
ops =
    observed reject (item 1)
    ∷ observed err (item 2)
    ∷ observed st (item 3)
    ∷ observed err (item 4)
    ∷ came capture_exception
    ∷ observed err (item 5)
    ∷ []

perform_all-early_case :
    calls_for err (perform_all all_on ops new_state).calls
    ≡ (if comes all_on err ops then early all_on err ops else [])
perform_all-early_case = perform_all-early all_on err ops refl

errors_before_rejections :
    (perform_all all_on ops new_state).calls ≡ (err, item 2) ∷ (err, item 4) ∷ (reject, item 1) ∷ []
unfolding perform_all perform observe is_wanted collect set_waiting provide release_each release
    call_each call
errors_before_rejections = refl

turned_off :
    (perform_all (record all_on { onerror = false }) ops new_state).calls ≡ (reject, item 1) ∷ []
unfolding perform_all perform observe is_wanted collect set_waiting provide release_each release
    call_each call
turned_off = refl

abbrev before : List (Early ℕ)
before =
    pushed reject (item 1) ∷ asked err (item 2) ∷ pushed err (item 3) ∷ pushed err (item 4) ∷ []

abbrev behind : List (Op ℕ)
behind =
    observed err (item 5) ∷ left err (item 6) ∷ came capture_exception ∷ observed err (item 7) ∷ []

run-calls_example :
    calls_for err (run all_on before behind).calls ≡ item 3 ∷ item 4 ∷ item 2 ∷ item 5 ∷ []
unfolding is_wanted comes early belongs
run-calls_example = run-calls all_on err before behind refl
