-- ===== src/Slardar/Merge/Tests.antt =====
-- The default, an answer of the server and what a program sets.
use ttlive_cpp.Prelude.{ℕ, ◌*◌, true, ◌≡◌, refl, [], ◌∷◌, some, codes}
use ttlive_cpp.Js.Text.{Text, same}
use ttlive_cpp.Js.Object.{Dict, own, has, has_own, is_inherited, put, assign}
use ttlive_cpp.Slardar.Merge.{
  absent, undef, value, Rule, SentSample, joined, merge_key, merge_keys, merge_rules, server_sample,
  as_rule, rules_from,
}
use ttlive_cpp.Slardar.Merge.Rules.{
  has_rule, conditions, enable, rate, merge_rules-properties, own-merge_rules, merge_rules_assoc,
}

abbrev half : Rule ℕ ℕ
half = record { enable = value true; sample_rate = value 50; conditional = value (1 ∷ []) }

abbrev only_conditions : Rule ℕ ℕ
only_conditions = record { enable = absent; sample_rate = absent; conditional = value (2 ∷ 3 ∷ []) }

abbrev ajax : Text
ajax = codes "ajax"

abbrev first_rules : Dict (Rule ℕ ℕ)
first_rules = (ajax, half) ∷ []

abbrev second_rules : Dict (Rule ℕ ℕ)
second_rules = (codes "http", half) ∷ (ajax, only_conditions) ∷ []

own-merge_rules_case :
    own ajax (merge_rules first_rules second_rules) ≡ some (joined half only_conditions)
unfolding is_inherited own same
own-merge_rules_case = own-merge_rules first_rules second_rules ajax refl

merge_rules_assoc_case :
    own ajax (merge_rules (merge_rules first_rules second_rules) first_rules)
    ≡ own ajax (merge_rules first_rules (merge_rules second_rules first_rules))
unfolding is_inherited
merge_rules_assoc_case = merge_rules_assoc first_rules second_rules first_rules ajax refl

both_rules :
    merge_rules first_rules second_rules
    ≡ (ajax, joined half only_conditions) ∷ (codes "http", half) ∷ []
unfolding merge_rules merge_keys merge_key has has_own own same is_inherited put
both_rules = refl

abbrev sent : SentSample ℕ ℕ
sent = record {
  sample_rate = 5;
  granularity = absent;
  include_users = absent;
  rules =
      value
        (record { name = ajax; rule = only_conditions } ∷ record { name = ajax; rule = half } ∷ []);
}

sent_rules : server_sample (λ a b. a * b) 1 (value 2) sent ≡ record {
  sample_rate = value 10;
  granularity = value (codes "session");
  include_users = undef;
  rules = value first_rules;
}
unfolding server_sample rules_from as_rule assign put same
sent_rules = refl

merge_rules-properties_example :
    (has_rule ajax (merge_rules first_rules second_rules) ≡ true)
    × (conditions ajax (merge_rules first_rules second_rules) ≡ 1 ∷ 2 ∷ 3 ∷ [])
    × (enable ajax (merge_rules first_rules second_rules) ≡ value true)
    × (rate ajax (merge_rules first_rules second_rules) ≡ value 50)
unfolding is_inherited own same
merge_rules-properties_example = merge_rules-properties first_rules second_rules ajax refl
