-- ===== src/Slardar/Subject/Tests.antt =====
-- A subject that closes after its one observer has left.
use ttlive_cpp.Prelude.{◌≡◌, refl, true, false, List, [], ◌∷◌, some}
use ttlive_cpp.Slardar.Util.{without}
use ttlive_cpp.Slardar.Subject.{
  Call, do_subscribe, do_unsubscribe, do_complete, do_attach, do_time_out, perform_all, perform,
  new_subject, subscribe, unsubscribe, watch, time_out, complete, attach, stopped, completed,
  welcomed,
}
use ttlive_cpp.Slardar.Subject.Closing.{perform_all-closed}

abbrev calls : List Call
calls =
    do_attach (record { stop = 1; welcome = some 2 })
    ∷ do_complete 3
    ∷ do_subscribe 7
    ∷ do_time_out
    ∷ do_unsubscribe 7
    ∷ do_time_out
    ∷ []

closes : (perform_all calls (new_subject false)).closed ≡ true
unfolding perform_all perform new_subject subscribe unsubscribe watch time_out complete attach
    without
closes = refl

perform_all-closed_case : (perform_all calls (new_subject false)).observers ≡ []
perform_all-closed_case = perform_all-closed calls false closes

history : (perform_all calls (new_subject false)).made ≡ welcomed 2 7 ∷ stopped 1 ∷ completed 3 ∷ []
unfolding perform_all perform new_subject subscribe unsubscribe watch time_out complete attach
    without
history = refl
