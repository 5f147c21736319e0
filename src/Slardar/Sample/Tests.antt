-- ===== src/Slardar/Sample/Tests.antt =====
-- Sampling with rates in thousandths.
use ttlive_cpp.Prelude.{
  ℕ, ◌*◌, ◌/◌, ◌≡◌, refl, Bool, true, false, List, [], ◌∷◌, Option, none, some, ltb, ◌==◌, inl,
  if◌then◌else◌, codes,
}
use ttlive_cpp.Js.Text.{Text, same}
use ttlive_cpp.Slardar.Util.{includes}
use ttlive_cpp.Slardar.Sample.{
  Numbers, Event, Sampling, Rule, bool, rule, eq, rule_for, decide, holds, marked, nothing, hit,
  by_rule,
}
use ttlive_cpp.Slardar.Sample.Session.{session_fate, decide-session}
use ttlive_cpp.Slardar.Sample.Fields.{on_boolean, holds-bool}

abbrev thousandths : Numbers ℕ
thousandths = record {
  one = 1000;
  times = λ a b. a * b / 1000;
  less = ltb;
  equal = ◌==◌;
  of_bool = λ b. if b then 1000 else 0;
  of_text = λ s. 0;
}

abbrev no_pattern : List Text → Text → Option Bool
no_pattern vs s = none

-- The random numbers that are left.
abbrev draw : ℕ → ℕ → Bool × ℕ
draw rate w = (ltb w rate, w)

abbrev visible_tab : Event ℕ
visible_tab = record {
  ev_type = codes "http";
  sample_rate = none;
  field = λ path. some (bool true);
}

abbrev half : Rule ℕ
half = record { enable = true; rate = 500; conditional = [] }

abbrev session : Sampling ℕ
session = record {
  sample_rate = 400;
  include_users = [];
  by_session = true;
  rules = (codes "http", half) ∷ [];
  r = 450;
}

found : rule_for thousandths no_pattern draw (codes "http") session.rules ≡ some half
unfolding rule_for same
found = refl

not_listed : includes same session.include_users (codes "u") ≡ false
unfolding includes
not_listed = refl

decide-session_example :
    decide thousandths no_pattern draw (codes "u") (some session) visible_tab 7
    ≡ session_fate thousandths no_pattern draw session
        (codes "http")
        500
        7
        (ltb 450 400)
        (ltb 450 500)
decide-session_example =
    decide-session thousandths no_pattern draw (codes "u") session visible_tab half 7 refl
      not_listed found refl refl refl

-- A number below both rates: the event passes in 400 sessions of 1000, and is marked with 200.
marked_low :
    decide thousandths no_pattern draw (codes "u") (some (record session { r = 399 })) visible_tab 7
    ≡ (marked 200, nothing, 7)
unfolding decide includes hit rule_for same by_rule
marked_low = refl

holds-bool_case :
    holds thousandths no_pattern visible_tab (rule (codes "hidden") eq (codes "1" ∷ []))
    ≡ on_boolean thousandths no_pattern eq
holds-bool_case =
    holds-bool thousandths no_pattern visible_tab (codes "hidden") true eq (codes "1" ∷ [])
      (inl refl) refl
