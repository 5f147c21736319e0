-- ===== src/Slardar/Settings/Tests.antt =====
-- A slow network, then none, then an answer; and answers that come late.
use ttlive_cpp.Prelude.{ℕ, true, false, ◌≡◌, refl, List, [], ◌∷◌, none, some}
use ttlive_cpp.Slardar.Settings.{
  Local, Failure, Event, succeeded, failed, timer, online, fetch, handle, handle_all, request,
  deliver,
}
use ttlive_cpp.Slardar.Settings.Answer.{IsLive, handle_all-IsLive}

abbrev slow_failure : Failure
slow_failure = record { network = true; slow = true; windowed = true; offline = false }

abbrev no_network : Failure
no_network = record { network = true; slow = false; windowed = true; offline = true }

abbrev nothing_stored : Local ℕ
nothing_stored = record { stored = none; fallback = 9; keeps = true }

abbrev bumpy : List (Event ℕ)
bumpy = failed slow_failure ∷ timer ∷ failed no_network ∷ online ∷ succeeded 5 ∷ succeeded 6 ∷ []

handle_all-IsLive_example : IsLive (handle_all nothing_stored bumpy fetch)
handle_all-IsLive_example = handle_all-IsLive nothing_stored bumpy

bumpy_delivers : (handle_all nothing_stored bumpy fetch).delivered ≡ 5 ∷ []
unfolding handle_all handle fetch request deliver
bumpy_delivers = refl

bumpy_saves : (handle_all nothing_stored bumpy fetch).saved ≡ 5 ∷ []
unfolding handle_all handle fetch request deliver
bumpy_saves = refl

third_failure_falls_back :
    (handle_all nothing_stored
      (failed slow_failure ∷ timer ∷ failed slow_failure ∷ timer ∷ failed slow_failure ∷ [])
      fetch).delivered
    ≡ 9 ∷ []
unfolding handle_all handle fetch request deliver
third_failure_falls_back = refl

stored_first :
    (handle_all
      (record nothing_stored { stored = some 4 })
      (failed no_network ∷ [])
      fetch).delivered
    ≡ 4 ∷ []
unfolding handle_all handle fetch request deliver
stored_first = refl
