-- ===== src/Slardar/Sample.antt =====
-- Sampling in js/browser.sg.js: the filters of conditional rules (`Lt`, `qt`) and the decision on an
-- event (`Mt` with `Dt` and `kt`).
pub mod Session
pub mod Fields
mod Tests
use ttlive_cpp.Prelude.{
  ℕ, Bool, true, false, not, ◌&&◌, ◌||◌, List, [], ◌∷◌, Option, none, some, if◌then◌else◌, ltb,
  ◌==◌,
}
use ttlive_cpp.Js.Text.{Text, same}
use ttlive_cpp.Slardar.Util.{includes}

-- The numbers of JavaScript, as far as the rates and the fields need them.
pub record Numbers (Num : Type 0) : Type 0 where
  pub one : Num
  pub times : Num → Num → Num
  pub less : Num → Num → Bool
  pub equal : Num → Num → Bool
  -- `Number(b)` and `Number(s)`
  pub of_bool : Bool → Num
  pub of_text : Text → Num

-- A field that a rule can name.
pub data Field (Num : Type 0) : Type 0 where
  bool : Bool → Field Num
  number : Num → Field Num
  string : Text → Field Num

pub data Op : Type 0 where
  eq neq gt gte lt lte regex not_regex other_op : Op

mutual
  pub data Filter : Type 0 where
    rule : Text → Op → List Text → Filter
    and_all or_any : Filters → Filter

  pub data Filters : Type 0 where
    nil : Filters
    cons : Filter → Filters → Filters

pub record Event (Num : Type 0) : Type 0 where
  pub ev_type : Text
  -- `common.sample_rate`, where it is set to something truthy.
  pub sample_rate : Option Num
  -- The value behind a path, if it is there.
  pub field : Text → Option (Field Num)

unfoldable pub text_less : Text → Text → Bool
text_less [] [] = false
text_less [] (b ∷ t) = true
text_less (a ∷ s) [] = false
text_less (a ∷ s) (b ∷ t) = if a == b then text_less s t else ltb a b

-- `matches` is `new RegExp(values.join("|"))` on a text; `none` is an invalid pattern.
module _ {Num : Type 0} (N : Numbers Num) (matches : List Text → Text → Option Bool) where
  -- `values.map(Number)` holds the number.
  unfoldable pub has_number : List Text → Num → Bool
  has_number [] n = false
  has_number (v ∷ vs) n = if N.equal (N.of_text v) n then true else has_number vs n

  -- The values stay texts for a boolean: the type is called `bool` where it is made and `boolean`
  -- where it is tested.
  unfoldable pub among : List Text → Field Num → Bool
  among vs (bool b) = false
  among vs (number n) = has_number vs n
  among vs (string s) = includes same vs s

  -- `<` between a field and the first value, in either direction; both are false for no value and
  -- for a number that is none.
  unfoldable pub below : Field Num → Text → Bool
  below (bool b) v = N.less (N.of_bool b) (N.of_text v)
  below (number n) v = N.less n (N.of_text v)
  below (string s) v = text_less s v

  unfoldable pub above : Field Num → Text → Bool
  above (bool b) v = N.less (N.of_text v) (N.of_bool b)
  above (number n) v = N.less (N.of_text v) n
  above (string s) v = text_less v s

  unfoldable pub equals : Field Num → Text → Bool
  equals (bool b) v = N.equal (N.of_bool b) (N.of_text v)
  equals (number n) v = N.equal n (N.of_text v)
  equals (string s) v = same s v

  abbrev pub on_first : List Text → (Text → Bool) → Option Bool
  on_first [] test = some false
  on_first (v ∷ vs) test = some (test v)

  -- Only a text has `match`; on the others the call throws.
  abbrev pub matched : List Text → Field Num → Option Bool
  matched vs (string s) = matches vs s
  matched vs _ = none

  abbrev pub negated : Option Bool → Option Bool
  negated none = none
  negated (some b) = some (not b)

  -- The inner switch of `Lt`; `none` is an exception.
  unfoldable pub compare_field : Field Num → Op → List Text → Option Bool
  compare_field f eq vs = some (among vs f)
  compare_field f neq vs = some (not (among vs f))
  compare_field f gt vs = on_first vs (above f)
  compare_field f gte vs = on_first vs (λ v. above f v || equals f v)
  compare_field f lt vs = on_first vs (below f)
  compare_field f lte vs = on_first vs (λ v. below f v || equals f v)
  compare_field f regex vs = matched vs f
  compare_field f not_regex vs = negated (matched vs f)
  compare_field f other_op vs = some false

  abbrev pub tested : Option (Field Num) → Op → List Text → Option Bool
  tested none op vs = some false
  tested (some f) op vs = compare_field f op vs

  -- The `catch` of `qt`.
  abbrev pub caught : Option Bool → Bool
  caught none = false
  caught (some b) = b

  unfoldable mutual
    pub holds : Event Num → Filter → Bool
    holds ev (rule path op vs) = caught (tested (ev.field path) op vs)
    holds ev (and_all fs) = all_hold ev fs
    holds ev (or_any fs) = any_holds ev fs

    pub all_hold : Event Num → Filters → Bool
    all_hold ev nil = true
    all_hold ev (cons f fs) = holds ev f && all_hold ev fs

    pub any_holds : Event Num → Filters → Bool
    any_holds ev nil = false
    any_holds ev (cons f fs) = holds ev f || any_holds ev fs

pub record Conditional (Num : Type 0) : Type 0 where
  pub rate : Num
  pub filter : Filter

pub record Rule (Num : Type 0) : Type 0 where
  pub enable : Bool
  pub rate : Num
  pub conditional : List (Conditional Num)

pub record Sampling (Num : Type 0) : Type 0 where
  pub sample_rate : Num
  pub include_users : List Text
  -- Is `sample_granularity` `session`?
  pub by_session : Bool
  pub rules : List (Text × Rule Num)
  -- The number that was drawn when the session began.
  pub r : Num

-- What becomes of an event: it is dropped, it passes as it is, or it passes marked with a rate.
pub data Fate (Num : Type 0) : Type 0 where
  dropped unmarked : Fate Num
  marked : Num → Fate Num

-- What is torn down for the rest of the session: nothing, the monitors of a type, or the client.
pub data Cut : Type 0 where
  nothing everything : Cut
  monitors_of : Text → Cut

-- `draw` is `Math.random() < rate`, on what random numbers are left.
module _ {Num : Type 0} (N : Numbers Num) (matches : List Text → Text → Option Bool) {W : Type 0}
    (draw : Num → W → Bool × W) where
  -- `Dt`: decided once for a session, and for each event otherwise.
  unfoldable pub hit : Sampling Num → Num → W → Bool × W
  hit s rate w = if s.by_session then (N.less s.r rate, w) else draw rate w

  abbrev pub passes_at : Num → Cut → Bool × W → Fate Num × Cut × W
  passes_at rate cut (true, w) = (marked rate, nothing, w)
  passes_at rate cut (false, w) = (dropped, cut, w)

  abbrev pub cut_of : Sampling Num → Text → Cut
  cut_of s ty = if s.by_session then monitors_of ty else nothing

  -- The first conditional rule whose filter holds decides; without one the rule itself does.
  unfoldable pub by_rule :
      Sampling Num → Event Num → Num → Cut → List (Conditional Num) → W → Fate Num × Cut × W
  by_rule s ev rate cut [] w = passes_at (N.times rate s.sample_rate) cut (hit s rate w)
  by_rule s ev rate cut (c ∷ cs) w =
      let next = by_rule s ev rate cut cs w in
      if holds N matches ev c.filter
      then passes_at (N.times c.rate s.sample_rate) nothing (hit s c.rate w)
      else next

  -- The conditional rules that a missing hit leaves in force keep the monitors alive.
  abbrev pub cut_without : Sampling Num → Text → List (Conditional Num) → Cut
  cut_without s ty [] = cut_of s ty
  cut_without s ty (c ∷ cs) = nothing

  abbrev pub unless_marked : Option Num → Fate Num × Cut × W → W → Fate Num × Cut × W
  unless_marked none decided w = decided
  unless_marked (some rate) decided w = (unmarked, nothing, w)

  abbrev pub ruled : Sampling Num → Event Num → Option (Rule Num) → W → Fate Num × Cut × W
  ruled s ev none w = (marked s.sample_rate, nothing, w)
  ruled s ev (some given) w =
      if given.enable
      then unless_marked ev.sample_rate
          (by_rule s ev given.rate (cut_without s ev.ev_type given.conditional) given.conditional w)
          w
      else (dropped, cut_of s ev.ev_type, w)

  -- `y[ev_type]`
  unfoldable pub rule_for : Text → List (Text × Rule Num) → Option (Rule Num)
  rule_for ty [] = none
  rule_for ty ((name, given) ∷ rules) = if same name ty then some given else rule_for ty rules

  abbrev pub in_sample : Sampling Num → Event Num → Bool × W → Fate Num × Cut × W
  in_sample s ev (true, w) = ruled s ev (rule_for ev.ev_type s.rules) w
  in_sample s ev (false, w) = (dropped, if s.by_session then everything else nothing, w)

  -- The decision on an event of a user; without a configuration every event passes.
  unfoldable pub decide : Text → Option (Sampling Num) → Event Num → W → Fate Num × Cut × W
  decide user none ev w = (unmarked, nothing, w)
  decide user (some s) ev w =
      if includes same s.include_users user
      then (marked N.one, nothing, w)
      else in_sample s ev (hit s s.sample_rate w)
