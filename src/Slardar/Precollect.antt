-- ===== src/Slardar/Precollect.antt =====
-- What js/browser.sg.js collects before its plug-ins are there: `ke` keeps an item for the method of its
-- kind or calls it, `De` calls the method for the items kept when it is provided, and `Oe` has items of
-- the page and of `precollect` go through `Le`. The methods do not throw.
pub mod Steps
pub mod Order
pub mod Init
mod Tests
use ttlive_cpp.Prelude.{
  ℕ, Bool, true, false, ◌||◌, List, [], ◌∷◌, ◌++◌, Option, none, some, if◌then◌else◌,
}

-- The keys of `Ae`, and all other names.
pub data Kind : Type 0 where
  sri st err reject other : Kind

-- Its values.
pub data Method : Type 0 where
  report_sri report_resource_error capture_exception : Method

-- What the configuration of the plug-in for errors turns off with `false`.
pub record Options : Type 0 where
  pub onerror : Bool
  pub onunhandledrejection : Bool

abbrev pub is_kind : Kind → Kind → Bool
is_kind sri sri = true
is_kind st st = true
is_kind err err = true
is_kind reject reject = true
is_kind other other = true
is_kind _ _ = false

-- `Ae`
abbrev pub method_of : Kind → Option Method
method_of sri = some report_sri
method_of st = some report_resource_error
method_of err = some capture_exception
method_of reject = some capture_exception
method_of other = none

-- `Ce`
abbrev pub kinds_of : Method → List Kind
kinds_of report_sri = sri ∷ []
kinds_of report_resource_error = st ∷ []
kinds_of capture_exception = err ∷ reject ∷ []

abbrev pub is_method : Method → Method → Bool
is_method report_sri report_sri = true
is_method report_resource_error report_resource_error = true
is_method capture_exception capture_exception = true
is_method _ _ = false

-- `Le`
unfoldable pub is_wanted : Options → Kind → Bool
is_wanted o err = o.onerror
is_wanted o reject = o.onunhandledrejection
is_wanted o _ = true

-- An item, with the context that its reports get.
pub record Item {ℓ} (A : Type ℓ) : Type ℓ where
  pub content : A
  pub context : A

pub record State {ℓ} (A : Type ℓ) : Type ℓ where
  -- `i`, where `none` is `null` or missing.
  pub waiting : Kind → Option (List (Item A))
  -- The methods that the client has.
  pub provided : Method → Bool
  -- The calls, each with the kind that it is for.
  pub calls : List (Kind × Item A)

-- `Te`
abbrev pub first_waiting {ℓ} : {A : Type ℓ} → Kind → Option (List (Item A))
first_waiting other = none
first_waiting _ = some []

module _ {ℓ} {A : Type ℓ} where
  abbrev pub new_state : State A
  new_state = record { waiting = first_waiting; provided = λ m. false; calls = [] }

  unfoldable pub set_waiting : Kind → Option (List (Item A)) → State A → State A
  set_waiting k o s = record s { waiting = λ j. if is_kind j k then o else s.waiting j }

  unfoldable pub call : Kind → Item A → State A → State A
  call k item s = record s { calls = s.calls ++ ((k, item) ∷ []) }

  abbrev pub has_method : Option Method → State A → Bool
  has_method none s = false
  has_method (some m) s = s.provided m

  -- `ke`
  abbrev pub collect_in : Option (List (Item A)) → Kind → Item A → State A → State A
  collect_in none k item s = s
  collect_in (some items) k item s =
      if has_method (method_of k) s
      then call k item s
      else set_waiting k (some (items ++ (item ∷ []))) s

  unfoldable pub collect : Kind → Item A → State A → State A
  collect k item s = collect_in (s.waiting k) k item s

  -- `De`
  unfoldable pub call_each : Kind → List (Item A) → State A → State A
  call_each k [] s = s
  call_each k (item ∷ items) s = call_each k items (call k item s)

  abbrev pub waiting_list : Option (List (Item A)) → List (Item A)
  waiting_list none = []
  waiting_list (some items) = items

  unfoldable pub release : Kind → State A → State A
  release k s = set_waiting k none (call_each k (waiting_list (s.waiting k)) s)

  unfoldable pub release_each : List Kind → State A → State A
  release_each [] s = s
  release_each (k ∷ ks) s = release_each ks (release k s)

  unfoldable pub provide : Method → State A → State A
  provide m s =
      release_each (kinds_of m) (record s { provided = λ j. is_method j m || s.provided j })

  unfoldable pub observe : Options → Kind → Item A → State A → State A
  observe o k item s = if is_wanted o k then collect k item s else s

-- After `init`: what `precollect` is given, what the page still puts into its own array, where it is
-- left, and a method that comes.
pub data Op {ℓ} (A : Type ℓ) : Type ℓ where
  observed : Kind → Item A → Op A
  left : Kind → Item A → Op A
  came : Method → Op A

module _ {ℓ} {A : Type ℓ} where
  unfoldable pub perform : Options → Op A → State A → State A
  perform o (observed k item) s = observe o k item s
  perform o (left k item) s = s
  perform o (came m) s = provide m s

  unfoldable pub perform_all : Options → List (Op A) → State A → State A
  perform_all o [] s = s
  perform_all o (op ∷ ops) s = perform_all o ops (perform o op s)

-- Before `init`: what the page puts into its array, what `precollect` is asked, which waits as a
-- command, and a method that comes.
pub data Early {ℓ} (A : Type ℓ) : Type ℓ where
  pushed asked : Kind → Item A → Early A
  provided : Method → Early A

-- `i.p.a`, and the commands for `precollect`. A client that `Oe` has just made has no `p` yet, so that
-- nothing observes the array.
pub record Page {ℓ} (A : Type ℓ) : Type ℓ where
  pub items : List (Kind × Item A)
  pub asks : List (Kind × Item A)
  pub state : State A

module _ {ℓ} {A : Type ℓ} where
  abbrev pub new_page : Page A
  new_page = record { items = []; asks = []; state = new_state }

  unfoldable pub prepare : Early A → Page A → Page A
  prepare (pushed k item) p = record p { items = p.items ++ ((k, item) ∷ []) }
  prepare (asked k item) p = record p { asks = p.asks ++ ((k, item) ∷ []) }
  prepare (provided m) p = record p { state = provide m p.state }

  unfoldable pub prepare_all : List (Early A) → Page A → Page A
  prepare_all [] p = p
  prepare_all (e ∷ es) p = prepare_all es (prepare e p)

  unfoldable pub observe_each : Options → List (Kind × Item A) → State A → State A
  observe_each o [] s = s
  observe_each o ((k, item) ∷ items) s = observe_each o items (observe o k item s)

  -- `init`, with the configuration that it finds: the items of the page, and then, as `precollect` is
  -- provided, the commands that wait for it.
  unfoldable pub start : Options → Page A → State A
  start o p = observe_each o p.asks (observe_each o p.items p.state)

  unfoldable pub run : Options → List (Early A) → List (Op A) → State A
  run o before behind = perform_all o behind (start o (prepare_all before new_page))
