-- ===== src/Slardar/Context/Tests.antt =====
-- A context that is set, merged into and emptied.
use ttlive_cpp.Prelude.{ℕ, ◌≡◌, refl, List, [], ◌∷◌, none, some, codes}
use ttlive_cpp.Js.Text.{Text, same}
use ttlive_cpp.Js.Object.{own, assign, put, remove}
use ttlive_cpp.Slardar.Context.{
  new_context, Op, do_set, do_merge, do_delete, do_clear, set, merge, delete, clear, get, perform,
  perform_all,
}
use ttlive_cpp.Slardar.Context.Latest.{latest, text_of, get-latest}

abbrev as_digit : ℕ → Text
as_digit n = n ∷ []

abbrev key : Text
key = codes "page"

abbrev steps : List (Op ℕ)
steps =
    do_set key 49 ∷ do_merge ((key, 50) ∷ (codes "user", 51) ∷ []) ∷ do_delete (codes "user") ∷ []

get-latest_case :
    get as_digit key (perform_all as_digit steps new_context)
    ≡ text_of as_digit key (latest as_digit key steps none)
get-latest_case = get-latest as_digit key steps

page_is_two : get as_digit key (perform_all as_digit steps new_context) ≡ some (50 ∷ [])
unfolding get perform_all perform set merge delete own assign put remove same
page_is_two = refl

cleared : (perform_all as_digit (do_set key 49 ∷ do_clear ∷ []) new_context).texts ≡ []
unfolding perform_all perform clear
cleared = refl
