-- ===== src/Slardar/Merge/Rules.antt =====
-- The rules of a merged configuration, name by name, and the order in which three are merged.
use ttlive_cpp.Prelude.{
  ◌≡◌, refl, sym, ap, ◌∙◌, Bool, true, false, ◌||◌, List, [], ◌∷◌, ◌++◌, Option, none, some,
  if◌then◌else◌, if_has, if_true, if_false, arith,
}
use mathlib.Core.Path.{subst}
use mathlib.Core.List.{append_assoc, append-nil}
use ttlive_cpp.Js.Text.{Text, same, same_iff, same_refl}
use ttlive_cpp.Js.Object.{Dict, own, has, has_own, own-put, own-has_own, is_inherited}
use ttlive_cpp.Slardar.Merge.{
  Slot, absent, undef, value, over, or_empty, Rule, keys, joined, merged, put_some, merge_key,
  merge_keys, merge_rules,
}

unfoldable listed : Text → List Text → Bool
listed k [] = false
listed k (j ∷ js) = same j k || listed k js

listed-append : (k : Text) (js is : List Text) → listed k (js ++ is) ≡ (listed k js || listed k is)
unfolding listed
listed-append k [] is = refl
listed-append k (j ∷ js) is = ground (arith, listed-append k js is)

over_assoc {ℓ} : {A : Type ℓ} (a b c : Slot A) → over (over a b) c ≡ over a (over b c)
over_assoc a b absent = refl
over_assoc a b undef = refl
over_assoc a b (value v) = refl

abbrev is_absent {ℓ} : {A : Type ℓ} → Slot A → Bool
is_absent absent = true
is_absent undef = false
is_absent (value v) = false

-- The second where it is there, and else the first.
abbrev pub later {ℓ} : {A : Type ℓ} → Slot A → Slot A → Slot A
later a b = if is_absent b then a else b

later_absent {ℓ} : {A : Type ℓ} (a : Slot A) → a ≡ later absent a
later_absent absent = refl
later_absent undef = refl
later_absent (value v) = refl

over_later {ℓ} : {A : Type ℓ} (a b : Slot A) → over a b ≡ later a b
over_later a absent = refl
over_later a undef = refl
over_later a (value v) = refl

abbrev listed_in {ℓ} : {A : Type ℓ} → Slot (List A) → List A
listed_in s = elim s [ absent ↦ [] | undef ↦ [] | value cs ↦ cs ]

or_empty_listed {ℓ} : {A : Type ℓ} (a : Slot (List A)) → or_empty a ≡ listed_in a
or_empty_listed absent = refl
or_empty_listed undef = refl
or_empty_listed (value cs) = refl

conditions_of {ℓ} :
    {A : Type ℓ} (a b : Slot (List A)) → or_empty a ++ or_empty b ≡ listed_in a ++ listed_in b
conditions_of a b = rw (or_empty_listed a) (rw (or_empty_listed b) refl)

module _ {ℓ} {R C : Type ℓ} where
  abbrev first_of : Option (Rule R C) → Option (Rule R C) → Option (Rule R C)
  first_of none b = b
  first_of (some a) b = some a

  unlisted : (k : Text) (d : Dict (Rule R C)) → listed k (keys d) ≡ false → own k d ≡ none
  unfolding own listed
  unlisted k [] h = refl
  unlisted k ((j, v) ∷ d) h = ground (arith, unlisted k d)

  no_value : (k : Text) (d : Dict (Rule R C)) → own k d ≡ none → has_own k d ≡ false
  unfolding own has_own
  no_value k [] h = refl
  no_value k ((j, v) ∷ d) h = ground (arith, no_value k d, h)

  own-put_some :
      (k : Text) (rule : Option (Rule R C)) (n : Dict (Rule R C))
      → own k n ≡ none
      → own k (put_some k rule n) ≡ rule
  own-put_some k none n h = h
  own-put_some k (some rule) n h = own-put k k rule n ∙ if_true _ (same_refl k)

  own-put_other :
      (k j : Text) (rule : Option (Rule R C)) (n : Dict (Rule R C))
      → same k j ≡ false
      → own j (put_some k rule n) ≡ own j n
  own-put_other k j none n h = refl
  own-put_other k j (some rule) n h = own-put k j rule n ∙ if_false _ h

  first_has :
      (k : Text) (m : Option (Rule R C)) (n : Dict (Rule R C)) (x : Option (Rule R C))
      → own k n ≡ x
      → has_own k n ≡ true
      → x ≡ first_of x m
  first_has k m n none e h = cc (no_value k n e, h)
  first_has k m n (some v) e h = refl

  module _ (r o : Dict (Rule R C)) where
    here :
        (k : Text) (n : Dict (Rule R C))
        → is_inherited k ≡ false
        → own k (merge_key r o k n) ≡ first_of (own k n) (merged (own k r) (own k o))
    unfolding merge_key has
    here k n i =
        let m = merged (own k r) (own k o) in
        if_has (λ (d : Dict (Rule R C)). own k d ≡ first_of (own k n) m)
          (has_own k n || is_inherited k)
          (λ h. first_has k m n (own k n) refl (ground (arith, h, i)))
          (λ h.
            let absent_here = own-has_own k n (ground (arith, h)) in
            own-put_some k m n absent_here ∙ rw absent_here refl)

    elsewhere :
        (j k : Text) (n : Dict (Rule R C)) → same j k ≡ false → own k (merge_key r o j n) ≡ own k n
    unfolding merge_key
    elsewhere j k n h =
        if_has (λ (d : Dict (Rule R C)). own k d ≡ own k n) (has j n) (λ _. refl)
          (λ _. own-put_other j k (merged (own j r) (own j o)) n h)

    abbrev found : Text → Bool → Option (Rule R C)
    found k b = if b then merged (own k r) (own k o) else none

    twice :
        (x m : Option (Rule R C)) (b : Bool)
        → first_of (first_of x m) (if b then m else none) ≡ first_of x m
    twice none none true = refl
    twice none none false = refl
    twice none (some v) b = refl
    twice (some v) m b = refl

    first_none : (x : Option (Rule R C)) → x ≡ first_of x none
    first_none none = refl
    first_none (some v) = refl

    keyed :
        (j k : Text) (n : Dict (Rule R C)) (l : Bool) (b : Bool)
        → is_inherited k ≡ false
        → same j k ≡ b
        → first_of (own k (merge_key r o j n)) (found k l) ≡ first_of (own k n) (found k (b || l))
    keyed j k n l true i e =
        ap (λ x. first_of x (found k l))
          (ap (λ t. own k (merge_key r o t n)) ((same_iff j k).0 e) ∙ here k n i)
        ∙ twice (own k n) (merged (own k r) (own k o)) l
    keyed j k n l false i e = ap (λ x. first_of x (found k l)) (elsewhere j k n e)

    own-merge_keys :
        (k : Text) (ks : List Text) (n : Dict (Rule R C))
        → is_inherited k ≡ false
        → own k (merge_keys r o ks n) ≡ first_of (own k n) (found k (listed k ks))
    unfolding merge_keys listed
    own-merge_keys k [] n i = first_none (own k n)
    own-merge_keys k (j ∷ ks) n i =
        own-merge_keys k ks (merge_key r o j n) i ∙ keyed j k n (listed k ks) (same j k) i refl

    found-both :
        (k : Text) (b : Bool)
        → listed k (keys r ++ keys o) ≡ b
        → found k b ≡ merged (own k r) (own k o)
    found-both k true e = refl
    found-both k false e =
        let none_of : (listed k (keys r) || listed k (keys o)) ≡ false =
          sym (listed-append k (keys r) (keys o)) ∙ e in
        rw (unlisted k r (ground (arith, none_of)))
          (rw (unlisted k o (ground (arith, none_of))) refl)

    pub own-merge_rules :
        (k : Text) → is_inherited k ≡ false → own k (merge_rules r o) ≡ merged (own k r) (own k o)
    unfolding merge_rules own
    own-merge_rules k i =
        own-merge_keys k (keys r ++ keys o) [] i ∙ found-both k (listed k (keys r ++ keys o)) refl

  -- What a configuration says of a rule: whether it has one, its conditions, and its two other
  -- properties, which the later configuration decides where it has them.
  abbrev is_rule : Option (Rule R C) → Bool
  is_rule none = false
  is_rule (some rule) = true

  abbrev conditions_in : Option (Rule R C) → List C
  conditions_in none = []
  conditions_in (some rule) = listed_in rule.conditional

  abbrev enable_in : Option (Rule R C) → Slot Bool
  enable_in none = absent
  enable_in (some rule) = rule.enable

  abbrev rate_in : Option (Rule R C) → Slot R
  rate_in none = absent
  rate_in (some rule) = rule.sample_rate

  abbrev pub has_rule : Text → Dict (Rule R C) → Bool
  has_rule k d = is_rule (own k d)

  abbrev pub conditions : Text → Dict (Rule R C) → List C
  conditions k d = conditions_in (own k d)

  abbrev pub enable : Text → Dict (Rule R C) → Slot Bool
  enable k d = enable_in (own k d)

  abbrev pub rate : Text → Dict (Rule R C) → Slot R
  rate k d = rate_in (own k d)

  -- The properties of what two rules, or one, or none, come to.
  IsMergedOf : Option (Rule R C) → Option (Rule R C) → Option (Rule R C) → Type ℓ
  IsMergedOf a b m =
      (is_rule m ≡ (is_rule a || is_rule b))
      × (conditions_in m ≡ conditions_in a ++ conditions_in b)
      × (enable_in m ≡ later (enable_in a) (enable_in b))
      × (rate_in m ≡ later (rate_in a) (rate_in b))

  merged-IsMergedOf : (a b : Option (Rule R C)) → IsMergedOf a b (merged a b)
  unfolding joined IsMergedOf
  merged-IsMergedOf none none = (refl, refl, refl, refl)
  merged-IsMergedOf none (some b) = (refl, refl, later_absent b.enable, later_absent b.sample_rate)
  merged-IsMergedOf (some a) none = (refl, sym (append-nil (conditions_in (some a))), refl, refl)
  merged-IsMergedOf (some a) (some b) = (
    refl,
    conditions_of a.conditional b.conditional,
    over_later a.enable b.enable,
    over_later a.sample_rate b.sample_rate,
  )

  -- Of a name that is not that of a member of `Object.prototype`: a merged configuration has a rule
  -- exactly where one of the two has one; its conditions are those of the first and then those of the
  -- second; and whether it is enabled and its rate are those of the second where that has them, as a
  -- value or as `undefined`, and else those of the first.
  pub merge_rules-properties :
      (r o : Dict (Rule R C)) (k : Text)
      → is_inherited k ≡ false
      → (has_rule k (merge_rules r o) ≡ (has_rule k r || has_rule k o))
        × (conditions k (merge_rules r o) ≡ conditions k r ++ conditions k o)
        × (enable k (merge_rules r o) ≡ later (enable k r) (enable k o))
        × (rate k (merge_rules r o) ≡ later (rate k r) (rate k o))
  unfolding IsMergedOf
  merge_rules-properties r o k i =
      subst (IsMergedOf (own k r) (own k o)) (sym (own-merge_rules r o k i))
        (merged-IsMergedOf (own k r) (own k o))

  joined_assoc : (a b c : Rule R C) → joined (joined a b) c ≡ joined a (joined b c)
  unfolding joined
  joined_assoc a b c = rw (over_assoc a.enable b.enable c.enable) (
      rw (over_assoc a.sample_rate b.sample_rate c.sample_rate) (
        rw (append_assoc (or_empty a.conditional) (or_empty b.conditional) (or_empty c.conditional))
          refl))

  merged_assoc : (a b c : Option (Rule R C)) → merged (merged a b) c ≡ merged a (merged b c)
  merged_assoc none b c = refl
  merged_assoc (some a) none c = refl
  merged_assoc (some a) (some b) none = refl
  merged_assoc (some a) (some b) (some c) = ap some (joined_assoc a b c)

  -- Three configurations can be merged from either side: the rules under each name are the same.
  pub merge_rules_assoc :
      (a b c : Dict (Rule R C)) (k : Text)
      → is_inherited k ≡ false
      → own k (merge_rules (merge_rules a b) c) ≡ own k (merge_rules a (merge_rules b c))
  merge_rules_assoc a b c k i =
      own-merge_rules (merge_rules a b) c k i
      ∙ ap (λ x. merged x (own k c)) (own-merge_rules a b k i)
      ∙ merged_assoc (own k a) (own k b) (own k c)
      ∙ sym (
          own-merge_rules a (merge_rules b c) k i ∙ ap (merged (own k a)) (own-merge_rules b c k i))
