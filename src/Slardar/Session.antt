-- ===== src/Slardar/Session.antt =====
-- The session of js/browser.sg.js (`It`): what it adds up over pages, with a stopwatch that runs while
-- the page is visible. Every operation gets the time at which it runs.
pub mod Time
mod Tests
use ttlive_cpp.Prelude.{
  ℕ, ◌+◌, ◌-◌, Bool, true, false, not, ◌&&◌, List, [], ◌∷◌, ◌++◌, Option, none, some, if◌then◌else◌,
}
use ttlive_cpp.Js.Text.{Text, same}
use ttlive_cpp.Slardar.Apdex.{Weights, Score, no_score, Measured, measure, rank, action}

-- `i`, the time that has been measured, and `u`, since when the watch runs.
pub record Watch : Type 0 where
  pub spent : ℕ
  pub since : Option ℕ

abbrev pub running : Option ℕ → ℕ → ℕ
running none now = 0
running (some u) now = now - u

-- What is heard when the page is hidden, or seen again: that a watch which runs already starts anew
-- loses its time, and a page that is hidden twice changes nothing.
abbrev pub stopped : Option ℕ → ℕ → Watch → Watch
stopped none now w = w
stopped (some u) now w = record { spent = w.spent + (now - u); since = none }

unfoldable pub set_hidden : Bool → ℕ → Watch → Watch
set_hidden hidden now w = if hidden then stopped w.since now w else record w { since = some now }

-- `j`: takes the time, and starts the watch.
unfoldable pub take : ℕ → Watch → ℕ × Watch
take now w = (w.spent + running w.since now, record { spent = 0; since = some now })

-- What is known of a page when it is over.
pub record Summary : Type 0 where
  pub start : ℕ
  pub pid : Text
  pub view_id : Text
  pub end : ℕ
  pub time_spent : ℕ
  pub apdex : Score
  pub page_rank : ℕ

pub record Tally : Type 0 where
  pub end : ℕ
  pub time_spent : ℕ
  pub is_bounced : Bool
  pub entry : Text
  pub exit : Text
  pub p_count : ℕ
  pub a_count : ℕ
  pub last_page : Option Summary
  pub session_rank : Option ℕ
  pub apdex : Option Score

pub record Page : Type 0 where
  pub start : ℕ
  pub pid : Text
  pub view_id : Text

pub record Session : Type 0 where
  -- `l`, `d`, `p` and `v`
  pub page : Option Page
  pub last : Option Summary
  pub weights : Option Weights
  pub active : Bool
  pub page_score : Score
  pub session_score : Score
  pub watch : Watch
  pub tally : Tally
  -- The tallies that were reported.
  pub reported : List Tally

abbrev pub new_session : Session
new_session = record {
  page = none;
  last = none;
  weights = none;
  active = false;
  page_score = no_score;
  session_score = no_score;
  watch = record { spent = 0; since = none };
  tally = record {
    end = 0;
    time_spent = 0;
    is_bounced = false;
    entry = [];
    exit = [];
    p_count = 0;
    a_count = 0;
    last_page = none;
    session_rank = none;
    apdex = none;
  };
  reported = [];
}

abbrev pub rank_by : Option Weights → Score → ℕ
rank_by none s = 0
rank_by (some w) s = rank w s

-- `T`
unfoldable pub summary : Page → ℕ → Session → Summary
summary page now s = record {
  start = page.start;
  pid = page.pid;
  view_id = page.view_id;
  end = now;
  time_spent = (take now s.watch).0;
  apdex = s.page_score;
  page_rank = rank_by s.weights s.page_score;
}

abbrev pub is_there : {A : Type 0} → Option A → Bool
is_there none = false
is_there (some a) = true

-- `R`, `E` and `w`: what the first page, a page that is over, and the last one do to the tally.
abbrev pub enter : Text → Tally → Tally
enter pid t = record t { entry = pid; exit = pid }

abbrev pub add_page : Summary → Text → Tally → Tally
add_page d pid t = record t {
  time_spent = t.time_spent + d.time_spent;
  p_count = t.p_count + 1;
  exit = pid;
}

abbrev pub add_last : Summary → ℕ → Score → Bool → ℕ → Tally → Tally
add_last d ranked score complete now t = record t {
  end = now;
  time_spent = t.time_spent + d.time_spent;
  last_page = some d;
  p_count = t.p_count + 1;
  session_rank = some ranked;
  apdex = some score;
  is_bounced = not complete;
}

unfoldable pub close_page : Page → Text → ℕ → Session → Session
close_page page pid now s =
    let d = summary page now s in
    record s { last = some d; watch = (take now s.watch).1; tally = add_page d pid s.tally }

abbrev pub open_page : Text → Text → ℕ → Session → Session
open_page pid view now s = record s {
  page = some (record { start = now; pid = pid; view_id = view });
  page_score = no_score;
}

-- The first function of `It`: the first page begins the session, and each later one ends the page
-- before it.
abbrev pub page_after : Option Page → Text → Text → ℕ → Session → Session
page_after none pid view now s = record s {
  page = some (record { start = now; pid = pid; view_id = view });
  tally = enter pid s.tally;
  active = is_there s.weights;
}
page_after (some page) pid view now s =
    open_page pid view now (if s.active then close_page page pid now s else s)

unfoldable pub new_page : Text → Text → ℕ → Session → Session
new_page pid view now s = page_after s.page pid view now s

-- `set_apdex` without a configuration is the end of the session's own integration.
unfoldable pub set_apdex : Weights → Session → Session
set_apdex w s = record s { weights = some w; active = is_there s.page }

abbrev pub is_action : Measured → Bool
is_action (action d) = true
is_action _ = false

abbrev pub on_page : Option Page → Text → Bool
on_page none pid = false
on_page (some page) pid = same pid page.pid

abbrev pub scored : Option Weights → Measured → Score → Score
scored none ev score = score
scored (some w) ev score = measure w ev score

unfoldable pub count_action : Measured → Tally → Tally
count_action ev t = if is_action ev then record t { a_count = t.a_count + 1 } else t

-- An event that is sent: it counts for the session, unless only pages are scored, and for the page
-- if it belongs to it.
unfoldable pub count_event : Bool → Text → Measured → Session → Session
count_event pages_only pid ev s =
    if s.active
    then record s {
      session_score = if pages_only then s.session_score else scored s.weights ev s.session_score;
      tally = if pages_only then s.tally else count_action ev s.tally;
      page_score = if on_page s.page pid then scored s.weights ev s.page_score else s.page_score;
    }
    else s

-- The page goes away: the session is reported, and its score begins anew.
abbrev pub report_with : Option Page → Bool → ℕ → Session → Session
report_with none complete now s = s
report_with (some page) complete now s =
    let d = summary page now s in
    let tally =
      add_last d (rank_by s.weights s.session_score) s.session_score complete now s.tally in
    record s {
      watch = (take now s.watch).1;
      tally = tally;
      session_score = no_score;
      reported = s.reported ++ (tally ∷ []);
    }

-- `silent`: the option `apdex` is 2, and no report is asked for.
unfoldable pub unload : Bool → Bool → ℕ → Session → Session
unload silent complete now s =
    if silent then s else if s.active then report_with s.page complete now s else s

unfoldable pub hide_or_show : Bool → ℕ → Session → Session
hide_or_show hidden now s = record s { watch = set_hidden hidden now s.watch }
