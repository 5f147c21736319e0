-- ===== src/Slardar/Merge.antt =====
-- How js/browser.sg.js puts sampling configurations together: `Ee` merges two, and `s` in `we` reads
-- what the server sent. Rates, conditions and users are of any type; the names of rules are no array
-- indices, so that objects list them in the order of their creation.
pub mod Rules
mod Tests
use ttlive_cpp.Prelude.{
  ℕ, Bool, true, false, List, [], ◌∷◌, ◌++◌, Option, none, some, if◌then◌else◌, codes,
}
use ttlive_cpp.Js.Text.{Text, same}
use ttlive_cpp.Js.Object.{Dict, own, has, put, assign}

-- A property of an object: not there, there and `undefined`, or there with a value.
pub data Slot {ℓ} (A : Type ℓ) : Type ℓ where
  absent undef : Slot A
  value : A → Slot A

-- What `Object.assign` leaves.
abbrev pub over {ℓ} : {A : Type ℓ} → Slot A → Slot A → Slot A
over a absent = a
over a undef = undef
over a (value v) = value v

abbrev pub or_empty {ℓ} : {A : Type ℓ} → Slot (List A) → List A
or_empty absent = []
or_empty undef = []
or_empty (value xs) = xs

abbrev pub or_value {ℓ} : {A : Type ℓ} → A → Slot A → A
or_value d absent = d
or_value d undef = d
or_value d (value v) = v

-- A property that is written out in an object: there, if only as `undefined`.
abbrev pub there {ℓ} : {A : Type ℓ} → Slot A → Slot A
there absent = undef
there undef = undef
there (value v) = value v

abbrev pub default_granularity : Text
default_granularity = codes "session"

module _ {ℓ} (R C : Type ℓ) where
  pub record Rule : Type ℓ where
    pub enable : Slot Bool
    pub sample_rate : Slot R
    pub conditional : Slot (List C)

  pub record Sample : Type ℓ where
    pub sample_rate : Slot R
    pub granularity : Slot Text
    pub include_users : Slot (List Text)
    pub rules : Slot (Dict Rule)

  -- A rule as the server sends it.
  pub record Sent : Type ℓ where
    pub name : Text
    pub rule : Rule

  -- `sample` and `quota_rate` of the server's answer.
  pub record SentSample : Type ℓ where
    pub sample_rate : R
    pub granularity : Slot Text
    pub include_users : Slot (List Text)
    pub rules : Slot (List Sent)

module _ {ℓ} {R C : Type ℓ} where
  abbrev pub keys : Dict (Rule R C) → List Text
  keys [] = []
  keys ((k, r) ∷ d) = k ∷ keys d

  -- A rule that both have.
  unfoldable pub joined : Rule R C → Rule R C → Rule R C
  joined a b = record {
    enable = over a.enable b.enable;
    sample_rate = over a.sample_rate b.sample_rate;
    conditional = value (or_empty a.conditional ++ or_empty b.conditional);
  }

  abbrev pub merged : Option (Rule R C) → Option (Rule R C) → Option (Rule R C)
  merged none b = b
  merged (some a) none = some a
  merged (some a) (some b) = some (joined a b)

  -- Every name is one that one of them has.
  abbrev pub put_some : Text → Option (Rule R C) → Dict (Rule R C) → Dict (Rule R C)
  put_some k none n = n
  put_some k (some rule) n = put k rule n

  unfoldable pub merge_key :
      Dict (Rule R C) → Dict (Rule R C) → Text → Dict (Rule R C) → Dict (Rule R C)
  merge_key r o k n = if has k n then n else put_some k (merged (own k r) (own k o)) n

  unfoldable pub merge_keys :
      Dict (Rule R C) → Dict (Rule R C) → List Text → Dict (Rule R C) → Dict (Rule R C)
  merge_keys r o [] n = n
  merge_keys r o (k ∷ ks) n = merge_keys r o ks (merge_key r o k n)

  unfoldable pub merge_rules : Dict (Rule R C) → Dict (Rule R C) → Dict (Rule R C)
  merge_rules r o = merge_keys r o (keys r ++ keys o) []

  -- `Ee`
  unfoldable pub merge_samples : Sample R C → Sample R C → Sample R C
  merge_samples r o = record {
    sample_rate = over r.sample_rate o.sample_rate;
    granularity = over r.granularity o.granularity;
    include_users = value (or_empty r.include_users ++ or_empty o.include_users);
    rules = value (merge_rules (or_empty r.rules) (or_empty o.rules));
  }

  abbrev pub merge : Option (Sample R C) → Option (Sample R C) → Option (Sample R C)
  merge none o = o
  merge (some r) none = some r
  merge (some r) (some o) = some (merge_samples r o)

  unfoldable pub as_rule : Sent R C → Rule R C
  as_rule s = record {
    enable = there s.rule.enable;
    sample_rate = there s.rule.sample_rate;
    conditional = there s.rule.conditional;
  }

  -- `n[e] = {...}`, which for `__proto__` gives no property of its own.
  unfoldable pub rules_from : List (Sent R C) → Dict (Rule R C) → Dict (Rule R C)
  rules_from [] n = n
  rules_from (s ∷ ss) n = rules_from ss (assign s.name (as_rule s) n)

  -- The sample of the server's answer, whose rate is its own times the quota, if there is one.
  unfoldable pub server_sample : (R → R → R) → R → Slot R → SentSample R C → Sample R C
  server_sample times one quota s = record {
    sample_rate = value (times s.sample_rate (or_value one quota));
    granularity = value (or_value default_granularity s.granularity);
    include_users = there s.include_users;
    rules = value (rules_from (or_empty s.rules) []);
  }

  -- `f`: the default, the server's answer and what the program set.
  unfoldable pub whole_sample :
      Option (Sample R C) → Option (Sample R C) → Option (Sample R C) → Option (Sample R C)
  whole_sample default server user = merge (merge default server) user
