-- ===== src/Slardar/Route/Views.antt =====
-- The page views of a list of addresses.
use mathlib.Core.Path.{subst}
use mathlib.Core.List.{append_assoc, append-nil}
use ttlive_cpp.Prelude.{
  ◌⊎◌, ◌≡◌, refl, sym, ap, ◌∙◌, Bool, true, false, List, [], ◌∷◌, ◌++◌, if◌then◌else◌, if_true,
  if_false, if_has, inl, inr, All,
}
use ttlive_cpp.Js.Text.{Text, same, same_iff}
use ttlive_cpp.Slardar.Route.{
  Page, Source, routed, init_view, Tracker, is_empty, is_manual, route_of, or_else, first_pid,
  track, route_change, visit, visit_all,
}

module _ (page : Page) where
  -- An address counts where its route differs from the one before it.
  unfoldable pub views_of : Text → List Text → List (Source × Text)
  views_of last [] = []
  views_of last (url ∷ urls) =
      let rest = views_of (route_of page url) urls in
      let same_page = views_of last urls in
      if same (route_of page url) last
      then same_page
      else (routed, or_else (page.extract_pid url) (route_of page url)) ∷ rest

  -- The last address, if there has been one, has led to the route.
  abbrev IsAt : Tracker → Type 0
  IsAt t = (t.address ≡ []) ⊎ (t.route ≡ route_of page t.address)

  abbrev at : Tracker → Text → Tracker
  at t url = record t { address = url }

  -- What one address does: the state that the rest starts from, and the views in between.
  record Steps (url : Text) (t t' : Tracker) : Type 0 where
    at_page : IsAt t'
    all_views :
        (urls : List Text)
        → t'.views ++ views_of t'.route urls ≡ t.views ++ views_of t.route (url ∷ urls)

  unchanged :
      (url : Text) (t t' : Tracker)
      → IsAt t'
      → t'.views ≡ t.views
      → t'.route ≡ t.route
      → same (route_of page url) t.route ≡ true
      → Steps url t t'
  unfolding views_of
  unchanged url t t' here v r h = record {
    at_page = here;
    all_views = λ urls.
        ap (λ l. l ++ views_of t'.route urls) v
        ∙ ap (λ l. t.views ++ views_of l urls) r
        ∙ ap (λ l. t.views ++ l) (sym (if_true _ h));
  }

  -- The address is the last one again.
  again :
      (url : Text) (t : Tracker)
      → is_empty url ≡ false
      → IsAt t
      → url ≡ t.address
      → same (route_of page url) t.route ≡ true
  again url t h (inl e) u = cc (ap is_empty (u ∙ e))
  again url t h (inr e) u = (same_iff (route_of page url) t.route).1 (ap (route_of page) u ∙ sym e)

  step-Steps :
      (url : Text) (t : Tracker)
      → Steps url t (route_change (route_of page url) (page.extract_pid url) (at t url))
  unfolding route_change views_of
  step-Steps url t =
      if_has (Steps url t) (same (route_of page url) t.route)
        (λ h.
          unchanged url t (at t url) (inr (sym ((same_iff (route_of page url) t.route).0 h))) refl
            refl h)
        (λ h. record {
          at_page = inr refl;
          all_views = λ urls.
              append_assoc t.views
                ((routed, or_else (page.extract_pid url) (route_of page url)) ∷ [])
                (views_of (route_of page url) urls)
              ∙ ap (λ l. t.views ++ l) (sym (if_false _ h));
        })

  visit-Steps :
      (url : Text) (t : Tracker)
      → is_manual page.mode ≡ false
      → is_empty url ≡ false
      → IsAt t
      → Steps url t (visit page url t)
  unfolding visit
  visit-Steps url t m h here = subst (Steps url t) (sym (if_false _ m)) (
      if_has (Steps url t) (same url t.address)
        (λ e. unchanged url t t here refl refl (again url t h here ((same_iff url t.address).0 e)))
        (λ _. step-Steps url t))

  visit_all-at :
      (urls : List Text) (t : Tracker)
      → is_manual page.mode ≡ false
      → All (λ url. is_empty url ≡ false) urls
      → IsAt t
      → (visit_all page urls t).views ≡ t.views ++ views_of t.route urls
  unfolding visit_all views_of
  visit_all-at [] t m h here = sym (append-nil t.views)
  visit_all-at (url ∷ urls) t m h here =
      let s = visit-Steps url t m h.0 here in
      visit_all-at urls (visit page url t) m h.1 s.at_page ∙ s.all_views urls

  -- Where the mode is not `manual`: the page views of a list of addresses are one for the first
  -- page, if it is asked for and has an id, and one for each address whose route differs from the
  -- route before it; an address that comes again, or leads to the same route, gives none.
  pub visit_all-views :
      (urls : List Text) (send_init : Bool) (given href : Text)
      → is_manual page.mode ≡ false
      → All (λ url. is_empty url ≡ false) urls
      → (visit_all page urls (track send_init given page href)).views
        ≡ init_view send_init (first_pid given page href) ++ views_of (route_of page href) urls
  unfolding track
  visit_all-views urls send_init given href m h =
      visit_all-at urls (track send_init given page href) m h (inl refl)
