-- ===== src/Slardar/Agent/Tests.antt =====
-- Functions that are called by name, by type, by the clearing, and after it.
use ttlive_cpp.Prelude.{◌≡◌, refl, true, List, [], ◌∷◌, codes}
use ttlive_cpp.Js.Text.{same}
use ttlive_cpp.Slardar.Agent.{
  Call, do_set, do_remove, do_remove_by, do_clear, new_agent, perform_all, perform, set, add_entry,
  remove, taken, dropped, remove_by_ev_type, taken_all_by, emptied_all_by, taken_by, emptied_by,
  fns_of, clear, pending, all_dropped,
}
use ttlive_cpp.Slardar.Agent.Once.{count, given_all, perform_all-cleared}

abbrev calls : List Call
calls =
    do_set (codes "ajax") (codes "http") (1 ∷ 2 ∷ [])
    ∷ do_set (codes "fetch") (codes "http") (3 ∷ [])
    ∷ do_set (codes "pageview") (codes "session") (4 ∷ [])
    ∷ do_remove (codes "ajax")
    ∷ do_remove_by (codes "http")
    ∷ do_clear
    ∷ do_set (codes "ajax") (codes "http") (5 ∷ [])
    ∷ []

spent : (perform_all calls new_agent).cleared ≡ true
unfolding perform_all perform set remove remove_by_ev_type clear
spent = refl

perform_all-cleared_example : count 5 (perform_all calls new_agent).ran ≡ given_all 5 calls
perform_all-cleared_example = perform_all-cleared 5 calls spent

in_order : (perform_all calls new_agent).ran ≡ 1 ∷ 2 ∷ 3 ∷ 4 ∷ 5 ∷ []
unfolding perform_all perform set add_entry remove taken dropped remove_by_ev_type taken_all_by
    emptied_all_by taken_by emptied_by fns_of clear pending all_dropped same
in_order = refl
