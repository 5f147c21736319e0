-- ===== src/Slardar/Loader/TurnedOff.antt =====
-- A plug-in that is turned off while its script is on the way.
use ttlive_cpp.Prelude.{
  ◌≡◌, refl, ap, ◌∙◌, true, false, List, [], ◌∷◌, ◌++◌, Option, none, some, if_has, if_false, arith,
}
use ttlive_cpp.Js.Text.{Text, same, same_refl}
use ttlive_cpp.Slardar.Loader.{
  Setting, off, Bundle, applied, Site, Loader, has, is_registered, define, run, apply_plugin,
  apply_each, wanted, all_registered, load_bundle, load_each, load_alone, load_again, set_plugins,
  reload, load_at, other_loads, arrive, defined, arrived, reloaded, perform, perform_all,
  sdk_version,
}

wanted-off : (n : Text) (s : Loader) → s.settings n ≡ off → wanted (n ∷ []) s ≡ []
unfolding wanted
wanted-off n s h = rw h refl

module _ (site : Site) (n : Text) where
  load_again-off : (b : Option Bundle) (s : Loader) → s.settings n ≡ off → load_again site b n s ≡ s
  unfolding load_alone load_bundle load_each apply_each all_registered
  load_again-off none s h = rw (wanted-off n s h) refl
  load_again-off (some b) s h =
      if_has (λ (t : Loader). t ≡ s) (has n b.plugins) (λ _. rw (wanted-off n s h) refl)
        (λ _. rw (wanted-off n s h) refl)

  reload-off :
      (settings : Text → Setting) (s : Loader)
      → settings n ≡ off
      → has n s.agent ≡ false
      → reload site n (some settings) s ≡ record s { settings = settings }
  unfolding reload
  reload-off settings s h inactive =
      ap (λ (t : Loader). load_again site site.bundle n (set_plugins (some settings) t))
        (if_false _ inactive)
      ∙ load_again-off site.bundle (record s { settings = settings }) h

  registered_behind :
      (v : Text) (registry : List (Text × Text))
      → same v sdk_version ≡ true
      → is_registered n (registry ++ ((n, v) ∷ [])) ≡ true
  unfolding is_registered
  registered_behind v [] e = ground (arith, same_refl n, e)
  registered_behind v ((m, w) ∷ registry) e = ground (arith, registered_behind v registry e)

  define-registered : (s : Loader) → is_registered n (define n s).registry ≡ true
  unfolding define
  define-registered s =
      if_has (λ (t : Loader). is_registered n t.registry ≡ true) (is_registered n s.registry)
        (λ h. h) (λ _. registered_behind sdk_version s.registry (same_refl sdk_version))

  define-same :
      (s : Loader)
      → ((define n s).log ≡ s.log) × ((define n s).agent ≡ s.agent) × ((define n s).loads ≡ s.loads)
  unfolding define
  define-same s =
      if_has (λ (t : Loader). (t.log ≡ s.log) × (t.agent ≡ s.agent) × (t.loads ≡ s.loads))
        (is_registered n s.registry) (λ _. (refl, refl, refl)) (λ _. (refl, refl, refl))

  apply_plugin-log :
      (s : Loader)
      → is_registered n s.registry ≡ true
      → has n s.agent ≡ false
      → (apply_plugin site n s).log ≡ applied n ∷ s.log
  unfolding apply_plugin run
  apply_plugin-log s here inactive = rw here (rw inactive refl)

  arrive-log :
      (s : Loader)
      → s.loads ≡ (n ∷ []) ∷ []
      → is_registered n s.registry ≡ true
      → has n s.agent ≡ false
      → (arrive site 0 s).log ≡ applied n ∷ s.log
  unfolding arrive load_at apply_each
  arrive-log s waits here inactive =
      ap (λ l. (apply_each site (load_at 0 l) (record s { loads = other_loads 0 s.loads })).log)
        waits
      ∙ apply_plugin-log (record s { loads = other_loads 0 s.loads }) here inactive

  -- A plug-in that is not active and whose script is the one that is waited for: though it is turned
  -- off by loading it anew, it is applied when the script defines it and has come.
  pub perform_all-turned_off :
      (settings : Text → Setting) (s : Loader)
      → settings n ≡ off
      → has n s.agent ≡ false
      → s.loads ≡ (n ∷ []) ∷ []
      → (perform_all site (reloaded n (some settings) ∷ defined n ∷ arrived 0 ∷ []) s).log
        ≡ applied n ∷ s.log
  unfolding perform_all perform
  perform_all-turned_off settings s h inactive waits =
      let t = record s { settings = settings } in
      let (log, agent, loads) = define-same t in
      ap (λ (t : Loader). (arrive site 0 (define n t)).log) (reload-off settings s h inactive)
      ∙ arrive-log (define n t) (loads ∙ waits) (define-registered t) (ap (has n) agent ∙ inactive)
      ∙ ap (λ l. applied n ∷ l) log
