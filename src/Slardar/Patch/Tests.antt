-- ===== src/Slardar/Patch/Tests.antt =====
-- Three wrappers, of which the middle one and then the last are taken off.
use ttlive_cpp.Prelude.{◌≡◌, refl, false, true, List, [], ◌∷◌}
use ttlive_cpp.Slardar.Patch.{
  Change, wrap, unwrap, untouched, change_all, change, patch, restore, restore_unless, deactivate,
  old_of, seen_by,
}
use ttlive_cpp.Slardar.Patch.Watching.{seen, watching, change_all-watching}

abbrev changes : List Change
changes = wrap ∷ wrap ∷ wrap ∷ unwrap false 1 ∷ unwrap true 0 ∷ unwrap false 2 ∷ []

change_all-watching_example : seen (change_all changes untouched) ≡ watching 0 [] changes
change_all-watching_example = change_all-watching changes

first_left : seen (change_all changes untouched) ≡ 0 ∷ []
unfolding change_all change patch restore restore_unless deactivate old_of seen_by
first_left = refl
