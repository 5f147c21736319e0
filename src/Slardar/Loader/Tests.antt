-- ===== src/Slardar/Loader/Tests.antt =====
-- A plug-in of the bundle and one with a script of its own.
use ttlive_cpp.Prelude.{◌+◌, true, ◌≡◌, refl, List, [], ◌∷◌, none, some, codes}
use ttlive_cpp.Js.Text.{Text, same}
use ttlive_cpp.Slardar.Loader.{
  Setting, off, on, Site, Loader, Op, started, defined, arrived, reloaded, applied, removed, has,
  without, is_registered, define, dashed, script_url, load_script, run, apply_plugin, apply_each,
  wanted, all_registered, load_bundle, load_one, load_each, load_alone, load_all, reload, load_at,
  other_loads, arrive, perform, perform_all, new_loader,
}
use ttlive_cpp.Slardar.Loader.Balance.{applied_times, removed_times, perform_all-applied_times}
use ttlive_cpp.Slardar.Loader.TurnedOff.{perform_all-turned_off}
use ttlive_cpp.Slardar.Settings.Answer.{one_if}

abbrev ajax : Text
ajax = codes "ajax"

abbrev blank : Text
blank = codes "blankScreen"

abbrev a_site : Site
a_site = record {
  bundle = some (record { name = codes "common"; plugins = ajax ∷ [] });
  prefix = codes "https://a/plugins";
  flavour = [];
  registers = λ _. true;
}

abbrev all_on : Text → Setting
all_on n = on

abbrev ajax_twice : List Op
ajax_twice = started ∷ defined ajax ∷ arrived 0 ∷ reloaded ajax none ∷ []

abbrev a_loader : Loader
a_loader = new_loader all_on []

perform_all-applied_times_example :
    applied_times ajax (perform_all a_site ajax_twice a_loader).log
    ≡ removed_times ajax (perform_all a_site ajax_twice a_loader).log
      + one_if (has ajax (perform_all a_site ajax_twice a_loader).agent)
perform_all-applied_times_example = perform_all-applied_times a_site ajax refl ajax_twice all_on []

ajax_is_applied_twice :
    (perform_all a_site ajax_twice a_loader).log ≡ applied ajax ∷ removed ajax ∷ applied ajax ∷ []
unfolding perform_all perform load_all load_alone load_each load_one load_bundle load_script wanted
    all_registered is_registered define same apply_each apply_plugin run has without arrive load_at
    other_loads reload
ajax_is_applied_twice = refl

blank_script : script_url a_site blank on ≡ codes "https://a/plugins/blank-screen.1.16.6.js"
unfolding script_url dashed
blank_script = refl

abbrev all_off : Text → Setting
all_off n = off

abbrev waiting : Loader
waiting = record a_loader { loads = (blank ∷ []) ∷ [] }

perform_all-turned_off_example :
    (perform_all a_site
      (reloaded blank (some all_off) ∷ defined blank ∷ arrived 0 ∷ [])
      waiting).log
    ≡ applied blank ∷ []
unfolding has
perform_all-turned_off_example = perform_all-turned_off a_site blank all_off waiting refl refl refl
