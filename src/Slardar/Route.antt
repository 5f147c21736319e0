-- ===== src/Slardar/Route.antt =====
-- Page views in js/browser.sg.js (`jt`): when a change of the address, or a page id that the program
-- sets, counts as a new page.
pub mod Views
mod Tests
use ttlive_cpp.Prelude.{
  ℕ, Bool, true, false, not, List, [], ◌∷◌, ◌++◌, Option, none, some, if◌then◌else◌, codes, ◌==◌,
}
use ttlive_cpp.Js.Text.{Text, same}

-- `routeMode`
pub data Mode : Type 0 where
  manual hash history : Mode

-- What is not the tracker's own: the parts of an address, as an anchor element gives them, and
-- `extractPid`, which may find no id.
pub record Page : Type 0 where
  pub mode : Mode
  pub path_of : Text → Text
  pub hash_of : Text → Text
  pub extract_pid : Text → Option Text

abbrev pub is_empty : Text → Bool
is_empty [] = true
is_empty (c ∷ s) = false

-- `replace(/^#/, "")`
unfoldable pub without_hash : Text → Text
without_hash [] = []
without_hash (c ∷ s) = if c == b'#' then s else c ∷ s

abbrev pub or_slash : Text → Text
or_slash s = if is_empty s then codes "/" else s

abbrev pub route_in : Mode → Page → Text → Text
route_in manual page url = []
route_in hash page url = or_slash (without_hash (page.hash_of url))
route_in history page url = page.path_of url

-- `v`: the page id that an address stands for.
unfoldable pub route_of : Page → Text → Text
route_of page url = route_in page.mode page url

pub data Source : Type 0 where
  init user_set routed : Source

pub record Tracker : Type 0 where
  -- `i`, `u`, and the `f` of the last address.
  pub route : Text
  pub pid : Text
  pub address : Text
  -- The page views that were reported, and the ids that `onPidUpdate` was told.
  pub views : List (Source × Text)
  pub updates : List Text

abbrev pub or_else : Option Text → Text → Text
or_else none t = t
or_else (some e) t = e

abbrev pub first_pid : Text → Page → Text → Text
first_pid given page href =
    if is_empty given then or_else (page.extract_pid href) (route_of page href) else given

abbrev pub init_view : Bool → Text → List (Source × Text)
init_view send_init pid = if send_init then if is_empty pid then [] else (init, pid) ∷ [] else []

-- The tracker of a page at an address, with the id that the program gave, which may be empty.
unfoldable pub track : Bool → Text → Page → Text → Tracker
track send_init given page href =
    let pid = first_pid given page href in
    record {
      route = route_of page href;
      pid = pid;
      address = [];
      views = init_view send_init pid;
      updates = pid ∷ [];
    }

abbrev pub moved_to : Source → Text → Tracker → Tracker
moved_to source pid t = record t {
  pid = pid;
  views = t.views ++ ((source, pid) ∷ []);
  updates = t.updates ++ (pid ∷ []);
}

-- A change of the address, with the id that `extractPid` finds in it.
unfoldable pub route_change : Text → Option Text → Tracker → Tracker
route_change route pid t =
    if same route t.route
    then t
    else moved_to routed (or_else pid route) (record t { route = route })

-- `sendPageview`
unfoldable pub set_pid : Text → Tracker → Tracker
set_pid pid t = if same pid t.pid then t else moved_to user_set pid t

-- `hashchange`, `popstate`, `pushState` and `replaceState`, none of which is heard where the mode is
-- `manual`.
abbrev pub is_manual : Mode → Bool
is_manual manual = true
is_manual _ = false

unfoldable pub visit : Page → Text → Tracker → Tracker
visit page url t =
    if is_manual page.mode
    then t
    else if same url t.address
    then t
    else route_change (route_of page url) (page.extract_pid url) (record t { address = url })

unfoldable pub visit_all : Page → List Text → Tracker → Tracker
visit_all page [] t = t
visit_all page (url ∷ urls) t = visit_all page urls (visit page url t)
