-- ===== src/Slardar/Agent.antt =====
-- The agent of js/browser.sg.js that tears integrations down (`H`): it keeps functions under a name
-- and an event type, and calls each when its name or its type is removed, or when it is cleared.
-- Functions are known by their identities, and those that are called leave the agent alone; names
-- are no array indices, so that they are listed in the order of their creation.
pub mod Once
mod Tests
use ttlive_cpp.Prelude.{
  ℕ, Bool, true, false, List, [], ◌∷◌, ◌++◌, Option, none, some, if◌then◌else◌,
}
use ttlive_cpp.Js.Text.{Text, same}

-- What `set` pushes; calling the functions empties their array.
pub record Entry : Type 0 where
  pub ev_type : Text
  pub fns : List ℕ

-- `i`; `none` is a name that was removed.
abbrev pub Entries : Type 0
Entries = List (Text × Option (List Entry))

pub record Agent : Type 0 where
  pub cleared : Bool
  pub entries : Entries
  -- The functions that have been called, in that order.
  pub ran : List ℕ

abbrev pub new_agent : Agent
new_agent = record { cleared = false; entries = []; ran = [] }

abbrev pub pushed : Option (List Entry) → Entry → List Entry
pushed none e = e ∷ []
pushed (some es) e = es ++ (e ∷ [])

unfoldable pub add_entry : Text → Entry → Entries → Entries
add_entry name e [] = (name, some (e ∷ [])) ∷ []
add_entry name e ((j, o) ∷ rest) =
    if same j name then (j, some (pushed o e)) ∷ rest else (j, o) ∷ add_entry name e rest

-- Once the agent is cleared, new functions are called at once.
unfoldable pub set : Text → Text → List ℕ → Agent → Agent
set name ty fns a =
    if a.cleared
    then record a {
      entries = add_entry name (record { ev_type = ty; fns = [] }) a.entries;
      ran = a.ran ++ fns;
    }
    else record a { entries = add_entry name (record { ev_type = ty; fns = fns }) a.entries }

abbrev pub is_set : Option (List Entry) → Bool
is_set none = false
is_set (some es) = true

unfoldable pub has : Text → Entries → Bool
has name [] = false
has name ((j, o) ∷ rest) = if same j name then is_set o else has name rest

unfoldable pub fns_of : List Entry → List ℕ
fns_of [] = []
fns_of (e ∷ es) = e.fns ++ fns_of es

abbrev pub fns_at : Option (List Entry) → List ℕ
fns_at none = []
fns_at (some es) = fns_of es

-- The functions under a name, and the entries without them.
unfoldable pub taken : Text → Entries → List ℕ
taken name [] = []
taken name ((j, o) ∷ rest) = if same j name then fns_at o else taken name rest

unfoldable pub dropped : Text → Entries → Entries
dropped name [] = []
dropped name ((j, o) ∷ rest) = if same j name then (j, none) ∷ rest else (j, o) ∷ dropped name rest

unfoldable pub remove : Text → Agent → Agent
remove name a = record a { entries = dropped name a.entries; ran = a.ran ++ taken name a.entries }

-- The same for an event type, whose entries stay and are empty.
unfoldable pub taken_by : Text → List Entry → List ℕ
taken_by ty [] = []
taken_by ty (e ∷ es) = (if same e.ev_type ty then e.fns else []) ++ taken_by ty es

unfoldable pub emptied_by : Text → List Entry → List Entry
emptied_by ty [] = []
emptied_by ty (e ∷ es) =
    record e { fns = if same e.ev_type ty then [] else e.fns } ∷ emptied_by ty es

abbrev pub taken_at : Text → Option (List Entry) → List ℕ
taken_at ty none = []
taken_at ty (some es) = taken_by ty es

abbrev pub emptied_at : Text → Option (List Entry) → Option (List Entry)
emptied_at ty none = none
emptied_at ty (some es) = some (emptied_by ty es)

unfoldable pub taken_all_by : Text → Entries → List ℕ
taken_all_by ty [] = []
taken_all_by ty ((j, o) ∷ rest) = taken_at ty o ++ taken_all_by ty rest

unfoldable pub emptied_all_by : Text → Entries → Entries
emptied_all_by ty [] = []
emptied_all_by ty ((j, o) ∷ rest) = (j, emptied_at ty o) ∷ emptied_all_by ty rest

unfoldable pub remove_by_ev_type : Text → Agent → Agent
remove_by_ev_type ty a = record a {
  entries = emptied_all_by ty a.entries;
  ran = a.ran ++ taken_all_by ty a.entries;
}

unfoldable pub pending : Entries → List ℕ
pending [] = []
pending ((j, o) ∷ rest) = fns_at o ++ pending rest

unfoldable pub all_dropped : Entries → Entries
all_dropped [] = []
all_dropped ((j, o) ∷ rest) = (j, none) ∷ all_dropped rest

unfoldable pub clear : Agent → Agent
clear a = record {
  cleared = true;
  entries = all_dropped a.entries;
  ran = a.ran ++ pending a.entries;
}

pub data Call : Type 0 where
  do_set : Text → Text → List ℕ → Call
  do_remove do_remove_by : Text → Call
  do_clear : Call

unfoldable pub perform : Call → Agent → Agent
perform (do_set name ty fns) a = set name ty fns a
perform (do_remove name) a = remove name a
perform (do_remove_by ty) a = remove_by_ev_type ty a
perform do_clear a = clear a

unfoldable pub perform_all : List Call → Agent → Agent
perform_all [] a = a
perform_all (c ∷ cs) a = perform_all cs (perform c a)
