-- ===== src/Slardar/Client/Tests.antt =====
-- A client with a hook that doubles, one that drops odd numbers, and one that throws.
use ttlive_cpp.Prelude.{
  ℕ, ◌*◌, ◌%◌, ◌<◌, ◌≡◌, refl, true, false, List, [], ◌∷◌, some, ◌==◌, if◌then◌else◌, length, arith,
}
use ttlive_cpp.Slardar.Util.{pipe, Answer, threw, falsy, gave}
use ttlive_cpp.Slardar.Client.{
  Client, Call, Program, do_init, do_start, do_report, do_on, do_settings, report, before_send,
  new_client, perform_all, perform, start_client, max_queue, report_event, through, on, passed,
  set_hooks, index_of, init_client, fire, notify_each, accept, enqueue, settings_arrive, begin,
  build_from, build_event, built, sent_on, send_event, hand_over,
}
use ttlive_cpp.Slardar.Client.Growth.{IsTame, Grows-refl}
use ttlive_cpp.Slardar.Client.Queue.{perform_all-queue_lt, perform_all-unsent}
use ttlive_cpp.Slardar.Client.Early.{plain}
use ttlive_cpp.Slardar.Client.Replay.{reports, start-reports}

abbrev answer : ℕ → ℕ → Answer ℕ
answer f e =
    if f == 1
    then gave (e * 2)
    else if f == 2
    then (if e % 2 == 0 then gave e else falsy)
    else threw

abbrev monitor : Program ℕ
monitor = plain answer some

tame : IsTame monitor
tame = record {
  hook_grows = λ f e c. Grows-refl c;
  notify_grows = λ f c. Grows-refl c;
  tear_down_grows = Grows-refl;
}

abbrev history : List (Call ℕ)
history =
    do_init (record { valid = true; has_default = true; local = false; has_sender = true })
    ∷ do_on report 2
    ∷ do_on before_send 1
    ∷ do_report 3
    ∷ do_report 4
    ∷ do_start
    ∷ []

perform_all-queue_lt_example : length (perform_all monitor history new_client).queue < max_queue
perform_all-queue_lt_example = perform_all-queue_lt monitor tame history

-- The settings are not there yet.
not_started : (perform_all monitor history new_client).started ≡ false
unfolding perform_all perform start_client report_event through pipe on passed set_hooks index_of
    init_client fire notify_each accept enqueue
not_started = refl

perform_all-unsent_example : (perform_all monitor history new_client).sent ≡ []
perform_all-unsent_example = perform_all-unsent monitor tame history not_started

abbrev ready : Client ℕ
ready = record new_client { inited = true; loaded = true }

start-reports_example :
    (start_client monitor (reports answer some (3 ∷ 4 ∷ []) ready)).sent
    ≡ (reports answer some (3 ∷ 4 ∷ []) (start_client monitor ready)).sent
start-reports_example =
    start-reports answer some (3 ∷ 4 ∷ []) ready refl refl refl refl (omega arith)

-- The rest of the life: with the settings the waiting report goes out, doubled.
delivered :
    (perform_all monitor (do_settings ∷ []) (perform_all monitor history new_client)).sent ≡ 8 ∷ []
unfolding perform_all perform start_client report_event through pipe on passed set_hooks index_of
    init_client fire notify_each accept enqueue settings_arrive begin build_from build_event built
    sent_on send_event hand_over
delivered = refl
