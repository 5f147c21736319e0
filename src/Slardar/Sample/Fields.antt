-- ===== src/Slardar/Sample/Fields.antt =====
-- Rules on fields that hold a boolean.
use ttlive_cpp.Prelude.{◌≡◌, refl, ap, ◌∙◌, Bool, true, false, List, Option, some, ◌⊎◌, inl, inr}
use ttlive_cpp.Js.Text.{Text}
use ttlive_cpp.Slardar.Sample.{
  Numbers, Event, bool, rule, Op, eq, neq, regex, not_regex, among, compare_field, tested, caught,
  holds,
}

module _ {Num : Type 0} (N : Numbers Num) (matches : List Text → Text → Option Bool) where
  -- The answers of the four equality rules for a field that holds a boolean, whatever it is.
  abbrev pub on_boolean : Op → Bool
  on_boolean neq = true
  on_boolean _ = false

  -- Where a path leads to a boolean, no list of values makes an equality rule for it hold and
  -- every list makes the inequality rule hold, and the two rules on patterns fail.
  pub holds-bool :
      (ev : Event Num) (path : Text) (b : Bool) (op : Op) (vs : List Text)
      → (op ≡ eq) ⊎ (op ≡ neq) ⊎ (op ≡ regex) ⊎ (op ≡ not_regex)
      → ev.field path ≡ some (bool b)
      → holds N matches ev (rule path op vs) ≡ on_boolean op
  unfolding holds compare_field among
  holds-bool ev path b op vs which h =
      ap (λ o. caught N matches (tested N matches o op vs)) h ∙ elim which [
        | inl e ↦ rw e refl
        | inr (inl e) ↦ rw e refl
        | inr (inr (inl e)) ↦ rw e refl
        | inr (inr (inr e)) ↦ rw e refl
      ]
