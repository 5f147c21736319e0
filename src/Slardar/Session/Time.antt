-- ===== src/Slardar/Session/Time.antt =====
-- The time that a session adds up.
use ttlive_cpp.Prelude.{
  ℕ, ◌+◌, ◌-◌, ◌≤◌, ◌≡◌, refl, ap, ◌∙◌, Bool, true, false, List, [], ◌∷◌, some, if_true, arith,
}
use ttlive_cpp.Js.Text.{Text}
use ttlive_cpp.Slardar.Apdex.{Weights}
use ttlive_cpp.Slardar.Session.{
  Watch, set_hidden, running, take, Page, Session, new_session, new_page, set_apdex, summary,
  close_page, open_page, page_after, new_session, report_with, unload, hide_or_show,
}

-- A page that is hidden when its time is taken: the time from then on is counted too.
pub take-hidden : (w : Watch) (a b c : ℕ) → (take c (take b (set_hidden true a w)).1).0 ≡ c - b
unfolding take
take-hidden w a b c = omega arith

-- Pages one after the other, each with the time at which it begins.
abbrev pub Pages : Type 0
Pages = List (Text × Text × ℕ)

unfoldable pub visit_all : Pages → Session → Session
visit_all [] s = s
visit_all ((pid, view, now) ∷ pages) s = visit_all pages (new_page pid view now s)

abbrev pub InOrder : ℕ → Pages → ℕ → Type 0
InOrder from [] to = from ≤ to
InOrder from ((pid, view, now) ∷ pages) to = (from ≤ now) × InOrder now pages to

-- A session that is counting on a page, whose watch has run since `from`.
record Counts (from total : ℕ) (s : Session) : Type 0 where
  page : Page
  here : s.page ≡ some page
  on : s.active ≡ true
  seen : s.watch ≡ record { spent = 0; since = some from }
  time : s.tally.time_spent ≡ total

time_taken :
    (from total now : ℕ) (s : Session)
    → Counts from total s
    → s.tally.time_spent + (s.watch.spent + running s.watch.since now) ≡ total + (now - from)
time_taken from total now s c =
    ap (λ (w : Watch). s.tally.time_spent + (w.spent + running w.since now)) c.seen
    ∙ omega (arith, c.time)

new_page-Counts :
    (from total now : ℕ) (pid view : Text) (s : Session)
    → Counts from total s
    → Counts now (total + (now - from)) (new_page pid view now s)
unfolding new_page close_page summary take
new_page-Counts from total now pid view s c =
    let closed = close_page c.page pid now s in
    let e : new_page pid view now s ≡ open_page pid view now closed =
      ap (λ o. page_after o pid view now s) c.here ∙ ap (open_page pid view now) (if_true _ c.on) in
    record {
      page = record { start = now; pid = pid; view_id = view };
      here = ap (λ (t : Session). t.page) e;
      on = ap (λ (t : Session). t.active) e ∙ c.on;
      seen = ap (λ (t : Session). t.watch) e;
      time = ap (λ (t : Session). t.tally.time_spent) e ∙ time_taken from total now s c;
    }

visit_all-Counts :
    (pages : Pages) (from total start to : ℕ) (s : Session)
    → Counts from total s
    → start + total ≡ from
    → InOrder from pages to
    → (last : ℕ) × (time : ℕ) × Counts last time (visit_all pages s)
      × (start + time ≡ last)
      × (last ≤ to)
unfolding visit_all
visit_all-Counts [] from total start to s c h o = (from, total, c, h, o)
visit_all-Counts ((pid, view, now) ∷ pages) from total start to s c h o =
    visit_all-Counts pages now (total + (now - from)) start to (new_page pid view now s)
      (new_page-Counts from total now pid view s c) (omega arith) o.1

unload-time :
    (from total to : ℕ) (complete : Bool) (s : Session)
    → Counts from total s
    → (unload false complete to s).tally.time_spent ≡ total + (to - from)
unfolding unload summary take
unload-time from total to complete s c =
    ap (λ (t : Session). t.tally.time_spent)
      (if_true _ c.on ∙ ap (λ o. report_with o complete to s) c.here)
    ∙ time_taken from total to s c

-- A session that is counted from its first page on.
abbrev pub begun : Weights → Text → Text → ℕ → Session
begun w pid view start =
    new_page pid view start (hide_or_show false start (set_apdex w new_session))

begun-Counts : (w : Weights) (pid view : Text) (start : ℕ) → Counts start 0 (begun w pid view start)
unfolding new_page hide_or_show set_hidden set_apdex
begun-Counts w pid view start = record {
  page = record { start = start; pid = pid; view_id = view };
  here = refl;
  on = refl;
  seen = refl;
  time = refl;
}

-- A session whose page stays visible and which is not silent: when it is reported, its time is the time from its beginning to
-- its end, however many pages it was spent on.
pub unload-visit_all :
    (w : Weights) (pid view : Text) (start to : ℕ) (complete : Bool) (pages : Pages)
    → InOrder start pages to
    → (unload false complete to (visit_all pages (begun w pid view start))).tally.time_spent
      ≡ to - start
unload-visit_all w pid view start to complete pages o =
    let (last, time, c, sum, le) =
      visit_all-Counts pages start 0 start to (begun w pid view start)
        (begun-Counts w pid view start) (omega arith) o in
    unload-time last time to complete _ c ∙ omega arith
