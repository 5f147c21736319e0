-- ===== src/Slardar/Loader.antt =====
-- The loader of plug-ins in js/browser.sg.js: `le` puts a plug-in into the registry of the page, `ce`
-- applies one, `oe` and `ie` apply what is there and ask for the scripts of the rest, and `re` loads a
-- plug-in anew. The page has a window, and a script that comes calls its callback once.
pub mod Balance
pub mod TurnedOff
mod Tests
use ttlive_cpp.Prelude.{
  ℕ, zero, suc, ◌+◌, ◌-◌, ◌*◌, ◌≡◌, refl, Bool, true, false, not, ◌&&◌, ◌||◌, List, [], ◌∷◌, ◌++◌,
  Option, none, some, if◌then◌else◌, codes, leb,
}
use ttlive_cpp.Js.Text.{Text, same}

-- What the configuration has for a plug-in: nothing or something falsy, a configuration, or one with
-- a path for its script.
pub data Setting : Type 0 where
  off on : Setting
  at : Text → Setting

pub record Bundle : Type 0 where
  pub name : Text
  pub plugins : List Text

pub data Entry : Type 0 where
  applied removed : Text → Entry

-- What is known before: the bundle, the prefix of the paths, `te`, and which plug-ins give the agent
-- something to tear down when they are applied.
pub record Site : Type 0 where
  pub bundle : Option Bundle
  pub prefix : Text
  pub flavour : Text
  pub registers : Text → Bool

pub record Loader : Type 0 where
  -- `config().plugins`
  pub settings : Text → Setting
  -- The names that `destroyAgent` has.
  pub agent : List Text
  -- Names and versions.
  pub registry : List (Text × Text)
  -- What each script that was asked for applies when it comes, and the addresses of all of them.
  pub loads : List (List Text)
  pub scripts : List Text
  -- What was applied and removed, the last first, and the names that were not found.
  pub log : List Entry
  pub missing : List Text

abbrev pub sdk_version : Text
sdk_version = codes "1.16.6"

abbrev pub default_plugins : List Text
default_plugins = codes "blankScreen" ∷ codes "action" ∷ []

abbrev pub is_on : Setting → Bool
is_on off = false
is_on _ = true

unfoldable pub has : Text → List Text → Bool
has k [] = false
has k (n ∷ ns) = same k n || has k ns

unfoldable pub without : Text → List Text → List Text
without k [] = []
without k (n ∷ ns) = if same k n then without k ns else n ∷ without k ns

-- `fe` and `se`
unfoldable pub is_registered : Text → List (Text × Text) → Bool
is_registered n [] = false
is_registered n ((m, v) ∷ rest) = same m n && same v sdk_version || is_registered n rest

-- `le`
unfoldable pub define : Text → Loader → Loader
define n s =
    if is_registered n s.registry
    then s
    else record s { registry = s.registry ++ ((n, sdk_version) ∷ []) }

-- `c`: a capital behind a small letter becomes a dash and a small letter.
abbrev pub is_small : ℕ → Bool
is_small c = leb 97 c && leb c 122

abbrev pub is_capital : ℕ → Bool
is_capital c = leb 65 c && leb c 90

unfoldable pub dashed : Text → Text
dashed [] = []
dashed (c ∷ []) = c ∷ []
dashed (c ∷ d ∷ s) =
    let rest = dashed s in
    let rest_from = dashed (d ∷ s) in
    if is_small c && is_capital d then c ∷ b'-' ∷ (d + 32) ∷ rest else c ∷ rest_from

-- `ae`
unfoldable pub script_url : Site → Text → Setting → Text
script_url site n (at path) = path
script_url site n _ =
    site.prefix ++ (b'/' ∷ dashed n ++ (b'.' ∷ sdk_version ++ (b'.' ∷ site.flavour ++ codes "js")))

unfoldable pub load_script : Site → Text → Setting → List Text → Loader → Loader
load_script site n setting names s = record s {
  loads = s.loads ++ (names ∷ []);
  scripts = s.scripts ++ (script_url site n setting ∷ []);
}

-- `ce`
unfoldable pub run : Site → Text → Loader → Loader
run site n s = record s {
  agent = if site.registers n then n ∷ s.agent else s.agent;
  log = applied n ∷ s.log;
}

unfoldable pub apply_plugin : Site → Text → Loader → Loader
apply_plugin site n s =
    if is_registered n s.registry
    then if has n s.agent then s else run site n s
    else record s { missing = s.missing ++ (n ∷ []) }

unfoldable pub apply_each : Site → List Text → Loader → Loader
apply_each site [] s = s
apply_each site (n ∷ ns) s = apply_each site ns (apply_plugin site n s)

-- The plug-ins that are configured and not active.
unfoldable pub wanted : List Text → Loader → List Text
wanted [] s = []
wanted (n ∷ ns) s =
    let rest = wanted ns s in if is_on (s.settings n) && not (has n s.agent) then n ∷ rest else rest

unfoldable pub all_registered : List Text → List (Text × Text) → Bool
all_registered [] registry = true
all_registered (n ∷ ns) registry = is_registered n registry && all_registered ns registry

-- `oe`
unfoldable pub load_bundle : Site → Text → List Text → Loader → Loader
load_bundle site bundle names s =
    if all_registered (wanted names s) s.registry
    then apply_each site (wanted names s) s
    else load_script site bundle off (wanted names s) s

-- `ie`
unfoldable pub load_one : Site → Text → Loader → Loader
load_one site n s =
    if is_registered n s.registry
    then apply_plugin site n s
    else load_script site n (s.settings n) (n ∷ []) s

unfoldable pub load_each : Site → List Text → Loader → Loader
load_each site [] s = s
load_each site (n ∷ ns) s = load_each site ns (load_one site n s)

unfoldable pub load_alone : Site → List Text → Loader → Loader
load_alone site names s = load_each site (wanted names s) s

-- `ue`, where no bundle is one without a name and without plug-ins.
abbrev pub load_bundled : Site → Option Bundle → Loader → Loader
load_bundled site none s = s
load_bundled site (some b) s = load_bundle site b.name b.plugins s

unfoldable pub load_all : Site → Loader → Loader
load_all site s = load_alone site default_plugins (load_bundled site site.bundle s)

-- `re`, with the settings that the configuration has after the new one is set, if one is given.
abbrev pub remove_first : Text → Loader → Loader
remove_first n s =
    if has n s.agent then record s { agent = without n s.agent; log = removed n ∷ s.log } else s

abbrev pub set_plugins : Option (Text → Setting) → Loader → Loader
set_plugins none s = s
set_plugins (some settings) s = record s { settings = settings }

abbrev pub load_again : Site → Option Bundle → Text → Loader → Loader
load_again site none n s = load_alone site (n ∷ []) s
load_again site (some b) n s =
    if has n b.plugins then load_bundle site b.name (n ∷ []) s else load_alone site (n ∷ []) s

unfoldable pub reload : Site → Text → Option (Text → Setting) → Loader → Loader
reload site n settings s = load_again site site.bundle n (set_plugins settings (remove_first n s))

-- The script of a load has come, and is not waited for any more.
unfoldable pub load_at : ℕ → List (List Text) → List Text
load_at i [] = []
load_at zero (ns ∷ rest) = ns
load_at (suc i) (ns ∷ rest) = load_at i rest

unfoldable pub other_loads : ℕ → List (List Text) → List (List Text)
other_loads i [] = []
other_loads zero (ns ∷ rest) = rest
other_loads (suc i) (ns ∷ rest) = ns ∷ other_loads i rest

unfoldable pub arrive : Site → ℕ → Loader → Loader
arrive site i s = apply_each site (load_at i s.loads) (record s { loads = other_loads i s.loads })

pub data Op : Type 0 where
  started : Op
  defined : Text → Op
  arrived : ℕ → Op
  reloaded : Text → Option (Text → Setting) → Op

unfoldable pub perform : Site → Op → Loader → Loader
perform site started s = load_all site s
perform site (defined n) s = define n s
perform site (arrived i) s = arrive site i s
perform site (reloaded n settings) s = reload site n settings s

unfoldable pub perform_all : Site → List Op → Loader → Loader
perform_all site [] s = s
perform_all site (op ∷ ops) s = perform_all site ops (perform site op s)

abbrev pub new_loader : (Text → Setting) → List (Text × Text) → Loader
new_loader settings registry = record {
  settings = settings;
  agent = [];
  registry = registry;
  loads = [];
  scripts = [];
  log = [];
  missing = [];
}
