-- ===== src/Slardar/Context/Latest.antt =====
-- What the context has under a name is the text of the value that was set last.
use ttlive_cpp.Prelude.{
  ◌≡◌, refl, ap, ◌∙◌, Bool, true, false, not, ◌&&◌, List, [], ◌∷◌, Option, none, some,
  if◌then◌else◌,
}
use ttlive_cpp.Js.Text.{Text, same}
use ttlive_cpp.Js.Object.{Dict, own, assign, own-assign, own-remove, proto_key}
use ttlive_cpp.Slardar.Context.{
  Context, new_context, Op, do_set, do_merge, do_delete, do_clear, set, assign_texts, merge, delete,
  clear, get, perform, perform_all,
}

module _ {ℓ} {V : Type ℓ} (json : V → Text) (k : Text) where
  -- Is it the name, and one that can be set?
  abbrev hits : Text → Bool
  hits j = same j k && not (same j proto_key)

  abbrev latest_of : Dict V → Option V → Option V
  latest_of [] o = o
  latest_of ((j, v) ∷ t) o = latest_of t (if hits j then some v else o)

  -- The value that the operations leave under the name.
  abbrev latest_by : Op V → Option V → Option V
  latest_by (do_set j v) o = if hits j then some v else o
  latest_by (do_merge t) o = latest_of t o
  latest_by (do_delete j) o = if same j k then none else o
  latest_by do_clear o = none

  abbrev pub latest : List (Op V) → Option V → Option V
  latest [] o = o
  latest (op ∷ ops) o = latest ops (latest_by op o)

  abbrev pub text_of : Option V → Option Text
  text_of none = none
  text_of (some v) = some (json v)

  text_of-if :
      (b : Bool) (v : V) (o : Option V)
      → (if b then some (json v) else text_of o) ≡ text_of (if b then some v else o)
  text_of-if true v o = refl
  text_of-if false v o = refl

  own-set :
      (j : Text) (v : V) (d : Dict Text) (o : Option V)
      → own k d ≡ text_of o
      → own k (assign j (json v) d) ≡ text_of (if hits j then some v else o)
  own-set j v d o e =
      own-assign j k (json v) d
      ∙ ap (λ t. if hits j then some (json v) else t) e
      ∙ text_of-if (hits j) v o

  own-assign_texts :
      (t : Dict V) (d : Dict Text) (o : Option V)
      → own k d ≡ text_of o
      → own k (assign_texts json t d) ≡ text_of (latest_of t o)
  own-assign_texts [] d o e = e
  own-assign_texts ((j, v) ∷ t) d o e =
      own-assign_texts t (assign j (json v) d) (if hits j then some v else o) (own-set j v d o e)

  text_of-unless :
      (b : Bool) (o : Option V) → (if b then none else text_of o) ≡ text_of (if b then none else o)
  text_of-unless true o = refl
  text_of-unless false o = refl

  own-perform :
      (op : Op V) (c : Context V) (o : Option V)
      → own k c.texts ≡ text_of o
      → own k (perform json op c).texts ≡ text_of (latest_by op o)
  unfolding perform set merge delete clear own
  own-perform (do_set j v) c o e = own-set j v c.texts o e
  own-perform (do_merge t) c o e = own-assign_texts t c.texts o e
  own-perform (do_delete j) c o e =
      own-remove j k c.texts
      ∙ ap (λ t. if same j k then none else t) e
      ∙ text_of-unless (same j k) o
  own-perform do_clear c o e = refl

  own-perform_all :
      (ops : List (Op V)) (c : Context V) (o : Option V)
      → own k c.texts ≡ text_of o
      → own k (perform_all json ops c).texts ≡ text_of (latest ops o)
  unfolding perform_all
  own-perform_all [] c o e = e
  own-perform_all (op ∷ ops) c o e =
      own-perform_all ops (perform json op c) (latest_by op o) (own-perform op c o e)

  -- After any operations on a new context, what it gives for a name is the JSON text of the value that
  -- was set last under that name, alone or with others, since it was last deleted or all was cleared.
  pub get-latest :
      (ops : List (Op V))
      → get json k (perform_all json ops new_context) ≡ text_of (latest ops none)
  unfolding get own
  get-latest ops = own-perform_all ops new_context none refl
