-- ===== src/Slardar/Context.antt =====
-- The context of js/browser.sg.js (`G`): values under names, each kept with its JSON text, which every
-- report gets. Names that objects inherit are not asked for.
pub mod Latest
mod Tests
use ttlive_cpp.Prelude.{ℕ, List, [], ◌∷◌, Option, none, some}
use ttlive_cpp.Js.Text.{Text}
use ttlive_cpp.Js.Object.{Dict, own, assign, remove}

-- `e` and `r`
pub record Context {ℓ} (V : Type ℓ) : Type ℓ where
  pub values : Dict V
  pub texts : Dict Text

abbrev pub new_context {ℓ} : {V : Type ℓ} → Context V
new_context = record { values = []; texts = [] }

pub data Op {ℓ} (V : Type ℓ) : Type ℓ where
  do_set : Text → V → Op V
  do_merge : Dict V → Op V
  do_delete : Text → Op V
  do_clear : Op V

-- A report, of which only its extra properties matter: texts under names, and the context.
pub record Report {ℓ} (E : Type ℓ) : Type ℓ where
  pub extra : Option E
  pub context : Option (Dict Text)

abbrev pub or_given {ℓ} : {E : Type ℓ} → E → Option E → E
or_given empty none = empty
or_given empty (some e) = e

module _ {ℓ} {V : Type ℓ} (json : V → Text) where
  unfoldable pub set : Text → V → Context V → Context V
  set k v c = record { values = assign k v c.values; texts = assign k (json v) c.texts }

  abbrev pub assign_all : Dict V → Dict V → Dict V
  assign_all [] d = d
  assign_all ((k, v) ∷ t) d = assign_all t (assign k v d)

  abbrev pub assign_texts : Dict V → Dict Text → Dict Text
  assign_texts [] d = d
  assign_texts ((k, v) ∷ t) d = assign_texts t (assign k (json v) d)

  unfoldable pub merge : Dict V → Context V → Context V
  merge t c = record { values = assign_all t c.values; texts = assign_texts t c.texts }

  unfoldable pub delete : Text → Context V → Context V
  delete k c = record { values = remove k c.values; texts = remove k c.texts }

  unfoldable pub clear : Context V → Context V
  clear c = new_context

  unfoldable pub get : Text → Context V → Option Text
  get k c = own k c.texts

  unfoldable pub perform : Op V → Context V → Context V
  perform (do_set k v) c = set k v c
  perform (do_merge t) c = merge t c
  perform (do_delete k) c = delete k c
  perform do_clear c = clear c

  unfoldable pub perform_all : List (Op V) → Context V → Context V
  perform_all [] c = c
  perform_all (op ∷ ops) c = perform_all ops (perform op c)

  -- The hook on reports, with the empty object.
  unfoldable pub on_report {κ} : {E : Type κ} → E → Context V → Report E → Report E
  on_report empty c r = record { extra = some (or_given empty r.extra); context = some c.texts }
