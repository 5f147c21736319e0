-- ===== src/Slardar/Route/Tests.antt =====
-- A page whose addresses are their own routes.
use ttlive_cpp.Prelude.{◌++◌, ◌≡◌, refl, true, List, [], ◌∷◌, none, codes}
use ttlive_cpp.Js.Text.{Text, same}
use ttlive_cpp.Slardar.Route.{
  Page, history, init, routed, track, visit, visit_all, route_change, route_of, init_view,
  first_pid,
}
use ttlive_cpp.Slardar.Route.Views.{views_of, visit_all-views}

abbrev page : Page
page = record {
  mode = history;
  path_of = λ url. url;
  hash_of = λ url. [];
  extract_pid = λ url. none;
}

abbrev urls : List Text
urls = codes "/a" ∷ codes "/b" ∷ codes "/b" ∷ codes "/a" ∷ []

visit_all-views_example :
    (visit_all page urls (track true [] page (codes "/a"))).views
    ≡ init_view true (first_pid [] page (codes "/a"))
      ++ views_of page (route_of page (codes "/a")) urls
visit_all-views_example =
    visit_all-views page urls true [] (codes "/a") refl (refl, (refl, (refl, (refl, tt))))

three_pages :
    (visit_all page urls (track true [] page (codes "/a"))).views
    ≡ (init, codes "/a") ∷ (routed, codes "/b") ∷ (routed, codes "/a") ∷ []
unfolding visit_all visit track route_change route_of same
three_pages = refl
