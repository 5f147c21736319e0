-- ===== src/Slardar/Batch/Tests.antt =====
-- A sender for batches of two that the page leaves and comes back to.
use ttlive_cpp.Prelude.{ℕ, ◌≡◌, refl, true, false, List, [], ◌∷◌, ◌++◌, codes}
use ttlive_cpp.Slardar.Batch.{
  Sender, Page, Call, do_send, do_unload, do_visible, do_flush, do_clear, perform_all, perform,
  new_sender, send, unload, collect, post_batch, flush, post_beacon, clear, visible,
}
use ttlive_cpp.Slardar.Batch.Order.{
  Shuffles, flat, given_all, dropped_all, perform_all-order, perform_all-timed,
}
use ttlive_cpp.Slardar.Batch.Again.{Later, event, leaves, returns}

abbrev browser : Page
browser = record { use_beacon = true; has_beacon = true }

abbrev visit : List (Call ℕ)
visit =
    do_send 1
    ∷ do_send 2
    ∷ do_send 3
    ∷ do_unload
    ∷ do_send 4
    ∷ do_visible
    ∷ do_send 5
    ∷ do_unload
    ∷ []

perform_all-order_example :
    (before : List ℕ) × (given_all browser refl visit
      ≡ before ++ (perform_all browser visit (new_sender 2 1000 (codes "/c"))).buffer)
    × Shuffles
        (flat (perform_all browser visit (new_sender 2 1000 (codes "/c"))).posts)
        (dropped_all browser refl visit (new_sender 2 1000 (codes "/c")))
        before
perform_all-order_example = perform_all-order browser refl visit 2 1000 (codes "/c")

abbrev cleared : List (Call ℕ)
cleared = do_send 1 ∷ do_send 2 ∷ do_send 3 ∷ do_clear ∷ do_send 4 ∷ []

-- The third event is dropped.
third_is_dropped : dropped_all browser refl cleared (new_sender 2 1000 (codes "/c")) ≡ 3 ∷ []
unfolding dropped_all perform_all perform new_sender send collect post_batch clear
third_is_dropped = refl

abbrev short_visit : List (Call ℕ)
short_visit = do_send 1 ∷ do_flush ∷ []

flushed : (perform_all browser short_visit (new_sender 2 1000 (codes "/c"))).armed ≡ false
unfolding perform_all perform new_sender flush post_batch send collect
flushed = refl

perform_all-timed_case :
    (perform_all browser short_visit (new_sender 2 1000 (codes "/c"))).buffer ≡ []
perform_all-timed_case = perform_all-timed browser refl short_visit 2 1000 (codes "/c") flushed

abbrev busy : Sender ℕ
busy = new_sender 4 1000 (codes "/c")

abbrev later : List (Later ℕ)
later = event 7 ∷ leaves ∷ returns ∷ event 8 ∷ leaves ∷ []

-- The fifth event stays behind.
left_behind : (perform_all browser visit (new_sender 2 1000 (codes "/c"))).buffer ≡ 5 ∷ []
unfolding perform_all perform new_sender flush post_batch send collect unload post_beacon clear
    visible
left_behind = refl
