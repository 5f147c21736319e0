-- ===== src/Slardar/Loader/Balance.antt =====
-- No plug-in is active twice, and one that is turned off while its script is on the way is applied.
use ttlive_cpp.Prelude.{
  ℕ, ◌+◌, ◌≡◌, refl, sym, ap, ◌∙◌, Bool, true, false, not, ◌&&◌, ◌||◌, List, [], ◌∷◌, Option, none,
  some, if◌then◌else◌, if_has, arith,
}
use ttlive_cpp.Js.Text.{Text, same, same_iff}
use ttlive_cpp.Slardar.Loader.{
  Setting, off, Bundle, Entry, applied, removed, Site, Loader, has, without, is_registered, define,
  load_script, run, apply_plugin, apply_each, wanted, all_registered, load_bundle, load_one,
  load_each, load_alone, load_bundled, load_all, remove_first, set_plugins, load_again, reload,
  load_at, other_loads, arrive, Op, started, defined, arrived, reloaded, perform, perform_all,
  new_loader,
}
use ttlive_cpp.Slardar.Settings.Answer.{one_if}

unfoldable pub applied_times : Text → List Entry → ℕ
applied_times k [] = 0
applied_times k (applied n ∷ log) = one_if (same k n) + applied_times k log
applied_times k (removed n ∷ log) = applied_times k log

unfoldable pub removed_times : Text → List Entry → ℕ
removed_times k [] = 0
removed_times k (applied n ∷ log) = removed_times k log
removed_times k (removed n ∷ log) = one_if (same k n) + removed_times k log

abbrev agent_of : Bool → Text → List Text → List Text
agent_of b n agent = if b then n ∷ agent else agent

has-agent_of :
    (k n : Text) (b : Bool) (agent : List Text)
    → has k (if b then n ∷ agent else agent) ≡ ((b && same k n) || has k agent)
unfolding has
has-agent_of k n true agent = refl
has-agent_of k n false agent = refl

has-without :
    (k n : Text) (agent : List Text) → has k (without n agent) ≡ (has k agent && not (same k n))
unfolding has without
has-without k n [] = refl
has-without k n (m ∷ agent) =
    ground (arith, has-without k n agent, same_iff n m, same_iff k n, same_iff k m)

has-same :
    (k n : Text) (agent : List Text) (b : Bool)
    → has n agent ≡ b
    → same k n ≡ true
    → has k agent ≡ b
has-same k n agent b h e = ap (λ t. has t agent) ((same_iff k n).0 e) ∙ h

-- Counts before and after, where the plug-in is the one that is counted or not.
count_applied :
    (a r : ℕ) (is_it torn active : Bool)
    → (is_it ≡ true → torn ≡ true)
    → (is_it ≡ true → active ≡ false)
    → a ≡ r + one_if active
    → one_if is_it + a ≡ r + one_if ((torn && is_it) || active)
count_applied a r true true true h i e = cc (i refl)
count_applied a r true true false h i e = omega arith
count_applied a r true false active h i e = cc (h refl)
count_applied a r false true active h i e = omega arith
count_applied a r false false active h i e = omega arith

count_removed :
    (a r : ℕ) (is_it active : Bool)
    → (is_it ≡ true → active ≡ true)
    → a ≡ r + one_if active
    → a ≡ one_if is_it + r + one_if (active && not is_it)
count_removed a r true true h e = omega arith
count_removed a r true false h e = cc (h refl)
count_removed a r false true h e = omega arith
count_removed a r false false h e = omega arith

module _ (site : Site) (k : Text) (torn : site.registers k ≡ true) where
  -- As often applied as removed, and once more where it is active.
  IsEven : Loader → Type 0
  IsEven s = applied_times k s.log ≡ removed_times k s.log + one_if (has k s.agent)

  torn_same : (n : Text) → same k n ≡ true → site.registers n ≡ true
  torn_same n e = ap site.registers (sym ((same_iff k n).0 e)) ∙ torn

  run-IsEven : (n : Text) (s : Loader) → has n s.agent ≡ false → IsEven s → IsEven (run site n s)
  unfolding IsEven run applied_times removed_times
  run-IsEven n s h e =
      count_applied _ _ (same k n) (site.registers n) (has k s.agent) (torn_same n)
        (has-same k n s.agent false h) e
      ∙ ap (λ b. removed_times k s.log + one_if b)
          (sym (has-agent_of k n (site.registers n) s.agent))

  remove_first-IsEven : (n : Text) (s : Loader) → IsEven s → IsEven (remove_first n s)
  unfolding IsEven applied_times removed_times
  remove_first-IsEven n s e =
      if_has IsEven (has n s.agent)
        (λ h.
          count_removed _ _ (same k n) (has k s.agent) (has-same k n s.agent true h) e
          ∙ ap (λ b. one_if (same k n) + removed_times k s.log + one_if b)
              (sym (has-without k n s.agent)))
        (λ h. e)

  apply_plugin-IsEven : (n : Text) (s : Loader) → IsEven s → IsEven (apply_plugin site n s)
  unfolding apply_plugin IsEven
  apply_plugin-IsEven n s e =
      if_has IsEven (is_registered n s.registry)
        (λ _. if_has IsEven (has n s.agent) (λ _. e) (λ h. run-IsEven n s h e)) (λ _. e)

  apply_each-IsEven : (ns : List Text) (s : Loader) → IsEven s → IsEven (apply_each site ns s)
  unfolding apply_each
  apply_each-IsEven [] s e = e
  apply_each-IsEven (n ∷ ns) s e =
      apply_each-IsEven ns (apply_plugin site n s) (apply_plugin-IsEven n s e)

  load_script-IsEven :
      (n : Text) (o : Setting) (ns : List Text) (s : Loader)
      → IsEven s
      → IsEven (load_script site n o ns s)
  unfolding load_script IsEven
  load_script-IsEven n o ns s e = e

  load_bundle-IsEven :
      (b : Text) (ns : List Text) (s : Loader) → IsEven s → IsEven (load_bundle site b ns s)
  unfolding load_bundle
  load_bundle-IsEven b ns s e =
      if_has IsEven (all_registered (wanted ns s) s.registry)
        (λ _. apply_each-IsEven (wanted ns s) s e) (λ _. load_script-IsEven b off (wanted ns s) s e)

  load_one-IsEven : (n : Text) (s : Loader) → IsEven s → IsEven (load_one site n s)
  unfolding load_one
  load_one-IsEven n s e =
      if_has IsEven (is_registered n s.registry) (λ _. apply_plugin-IsEven n s e)
        (λ _. load_script-IsEven n (s.settings n) (n ∷ []) s e)

  load_each-IsEven : (ns : List Text) (s : Loader) → IsEven s → IsEven (load_each site ns s)
  unfolding load_each
  load_each-IsEven [] s e = e
  load_each-IsEven (n ∷ ns) s e = load_each-IsEven ns (load_one site n s) (load_one-IsEven n s e)

  load_alone-IsEven : (ns : List Text) (s : Loader) → IsEven s → IsEven (load_alone site ns s)
  unfolding load_alone
  load_alone-IsEven ns s e = load_each-IsEven (wanted ns s) s e

  load_bundled-IsEven : (b : Option Bundle) (s : Loader) → IsEven s → IsEven (load_bundled site b s)
  load_bundled-IsEven none s e = e
  load_bundled-IsEven (some b) s e = load_bundle-IsEven b.name b.plugins s e

  load_again-IsEven :
      (b : Option Bundle) (n : Text) (s : Loader) → IsEven s → IsEven (load_again site b n s)
  load_again-IsEven none n s e = load_alone-IsEven (n ∷ []) s e
  load_again-IsEven (some b) n s e =
      if_has IsEven (has n b.plugins) (λ _. load_bundle-IsEven b.name (n ∷ []) s e)
        (λ _. load_alone-IsEven (n ∷ []) s e)

  set_plugins-IsEven :
      (o : Option (Text → Setting)) (s : Loader) → IsEven s → IsEven (set_plugins o s)
  unfolding IsEven
  set_plugins-IsEven none s e = e
  set_plugins-IsEven (some settings) s e = e

  define-IsEven : (n : Text) (s : Loader) → IsEven s → IsEven (define n s)
  unfolding define IsEven
  define-IsEven n s e = if_has IsEven (is_registered n s.registry) (λ _. e) (λ _. e)

  arrive-IsEven : (i : ℕ) (s : Loader) → IsEven s → IsEven (arrive site i s)
  unfolding arrive IsEven
  arrive-IsEven i s e =
      apply_each-IsEven (load_at i s.loads) (record s { loads = other_loads i s.loads }) e

  perform-IsEven : (op : Op) (s : Loader) → IsEven s → IsEven (perform site op s)
  unfolding perform load_all reload
  perform-IsEven started s e = load_alone-IsEven _ _ (load_bundled-IsEven site.bundle s e)
  perform-IsEven (defined n) s e = define-IsEven n s e
  perform-IsEven (arrived i) s e = arrive-IsEven i s e
  perform-IsEven (reloaded n settings) s e =
      load_again-IsEven site.bundle n _ (set_plugins-IsEven settings _ (remove_first-IsEven n s e))

  kept-IsEven : (ops : List Op) (s : Loader) → IsEven s → IsEven (perform_all site ops s)
  unfolding perform_all
  kept-IsEven [] s e = e
  kept-IsEven (op ∷ ops) s e = kept-IsEven ops (perform site op s) (perform-IsEven op s e)

  IsEven-at_first :
      (settings : Text → Setting) (registry : List (Text × Text))
      → IsEven (new_loader settings registry)
  unfolding IsEven applied_times removed_times has
  IsEven-at_first settings registry = refl

  -- Whatever is loaded, arrives and is loaded anew, in any order: a plug-in that registers its end
  -- with the agent is applied as often as it is removed, and once more exactly where it is active.
  pub perform_all-applied_times :
      (ops : List Op) (settings : Text → Setting) (registry : List (Text × Text))
      → applied_times k (perform_all site ops (new_loader settings registry)).log
        ≡ removed_times k (perform_all site ops (new_loader settings registry)).log
          + one_if (has k (perform_all site ops (new_loader settings registry)).agent)
  unfolding IsEven
  perform_all-applied_times ops settings registry =
      kept-IsEven ops (new_loader settings registry) (IsEven-at_first settings registry)
