-- ===== src/Slardar/Precollect/Order.antt =====
-- Every item that is collected before its method comes is handed to it, once and in order.
use ttlive_cpp.Prelude.{
  ◌≡◌, refl, sym, ap, ◌∙◌, inl, inr, Bool, true, false, ◌&&◌, ◌||◌, List, [], ◌∷◌, ◌++◌, Option,
  none, some, if◌then◌else◌, if_has, if_true,
}
use mathlib.Core.Path.{subst}
use mathlib.Core.List.{append_assoc, append-nil}
use ttlive_cpp.Slardar.Precollect.{
  Kind, other, Method, Options, is_kind, method_of, kinds_of, is_method, Item, State, new_state,
  set_waiting, call, has_method, collect_in, collect, release_each, provide, is_wanted, observe, Op,
  observed, left, came, perform, perform_all,
}
use ttlive_cpp.Slardar.Precollect.Steps.{
  belongs, kind_cases, is_kind_refl, first_waiting-named, bool_cases, has_method-came, calls_for,
  IsApart, IsApart-IsKept, IsApart-IsClosed, IsKept, IsClosed, release_each-IsClosed,
  release_each-listed, release_each-unlisted, release_each-provided, collect_in-IsApart,
}

no_method {ℓ} : (A : Type ℓ) (m : Option Method) → has_method m (new_state {A = A}) ≡ false
no_method A none = refl
no_method A (some m) = refl

module _ {ℓ} {A : Type ℓ} where
  in_provided :
      (w : Option (List (Item A))) (k : Kind) (item : Item A) (s : State A)
      → (collect_in w k item s).provided ≡ s.provided
  unfolding call set_waiting
  in_provided none k item s = refl
  in_provided (some items) k item s =
      if_has (λ (t : State A). t.provided ≡ s.provided) (has_method (method_of k) s) (λ _. refl)
        (λ _. refl)

  asked :
      (m : Option Method) (s t : State A)
      → t.provided ≡ s.provided
      → has_method m t ≡ has_method m s
  asked none s t e = refl
  asked (some m) s t e = ap (λ p. p m) e

  module _ (o : Options) (q : Kind) where
    abbrev taken : Kind → Item A → List (Item A)
    taken k item = if is_kind q k && is_wanted o k then item ∷ [] else []

    -- Does the method of the kind come, and which items of the kind come before it?
    unfoldable pub comes : List (Op A) → Bool
    comes [] = false
    comes (observed k item ∷ ops) = comes ops
    comes (left k item ∷ ops) = comes ops
    comes (came n ∷ ops) = belongs q (kinds_of n) || comes ops

    unfoldable pub early : List (Op A) → List (Item A)
    early [] = []
    early (observed k item ∷ ops) = taken k item ++ early ops
    early (left k item ∷ ops) = early ops
    early (came n ∷ ops) = let rest = early ops in if belongs q (kinds_of n) then [] else rest

    collect-IsKept :
        (items : List (Item A)) (item : Item A) (s : State A)
        → IsKept q items s
        → has_method (method_of q) s ≡ false
        → IsKept q (items ++ (item ∷ [])) (collect q item s)
    unfolding collect set_waiting
    collect-IsKept items item s k not_yet =
        rw k.waits (rw not_yet (record { waits = if_true _ (is_kind_refl q); called = k.called }))

    collect-IsClosed :
        (items : List (Item A)) (item : Item A) (s : State A)
        → IsClosed q items s
        → IsClosed q items (collect q item s)
    unfolding collect
    collect-IsClosed items item s c = rw c.waits c

    collect-IsApart :
        (k : Kind) (item : Item A) (s : State A)
        → is_kind q k ≡ false
        → IsApart q s (collect k item s)
    unfolding collect
    collect-IsApart k item s h = collect_in-IsApart q (s.waiting k) k item s h

    taken_if : Bool → Bool → Item A → List (Item A)
    taken_if is_it w item = if is_it && w then item ∷ [] else []

    unwanted : (is_it : Bool) (item : Item A) → taken_if is_it false item ≡ []
    unfolding taken_if
    unwanted true item = refl
    unwanted false item = refl

    taken_if-IsKept :
        (items : List (Item A)) (k : Kind) (item : Item A) (s : State A)
        → IsKept q items s
        → has_method (method_of q) s ≡ false
        → IsKept q (items ++ taken_if (is_kind q k) true item) (collect k item s)
    unfolding taken_if
    taken_if-IsKept items k item s kept not_yet = elim (kind_cases q k) [
      | inl e ↦
          subst (λ j. IsKept q (items ++ taken_if (is_kind q j) true item) (collect j item s)) e
            (rw (is_kind_refl q) (collect-IsKept items item s kept not_yet))
      | inr differs ↦ rw differs (
          rw (append-nil items)
            (IsApart-IsKept q items s (collect k item s) (collect-IsApart k item s differs) kept))
    ]

    observe-IsKept :
        (items : List (Item A)) (k : Kind) (item : Item A) (s : State A) (w : Bool)
        → IsKept q items s
        → has_method (method_of q) s ≡ false
        → IsKept q (items ++ taken_if (is_kind q k) w item) (if w then collect k item s else s)
    observe-IsKept items k item s true kept not_yet = taken_if-IsKept items k item s kept not_yet
    observe-IsKept items k item s false kept not_yet =
        rw (unwanted (is_kind q k) item) (rw (append-nil items) kept)

    observe-IsClosed :
        (items : List (Item A)) (k : Kind) (item : Item A) (s : State A)
        → IsClosed q items s
        → IsClosed q items (observe o k item s)
    unfolding observe
    observe-IsClosed items k item s c =
        if_has (IsClosed q items) (is_wanted o k)
          (λ _. elim (kind_cases q k) [
            | inl e ↦
                subst (λ j. IsClosed q items (collect j item s)) e (collect-IsClosed items item s c)
            | inr differs ↦
                IsApart-IsClosed q items s (collect k item s) (collect-IsApart k item s differs) c
          ])
          (λ _. c)

    closed_all :
        (ops : List (Op A)) (items : List (Item A)) (s : State A)
        → IsClosed q items s
        → calls_for q (perform_all o ops s).calls ≡ items
    unfolding perform_all perform provide
    closed_all [] items s c = c.called
    closed_all (observed k item ∷ ops) items s c =
        closed_all ops items (observe o k item s) (observe-IsClosed items k item s c)
    closed_all (left k item ∷ ops) items s c = closed_all ops items s c
    closed_all (came n ∷ ops) items s c = closed_all ops items (provide n s) (
        release_each-IsClosed q (kinds_of n) items
          (record s { provided = λ j. is_method j n || s.provided j })
          (record { waits = c.waits; called = c.called }))

    collect-provided :
        (k : Kind) (item : Item A) (s : State A) → (collect k item s).provided ≡ s.provided
    unfolding collect
    collect-provided k item s = in_provided (s.waiting k) k item s

    observe-provided :
        (k : Kind) (item : Item A) (s : State A) → (observe o k item s).provided ≡ s.provided
    unfolding observe
    observe-provided k item s =
        if_has (λ (t : State A). t.provided ≡ s.provided) (is_wanted o k)
          (λ _. collect-provided k item s) (λ _. refl)

    has_method-by :
        (s t : State A)
        → t.provided ≡ s.provided
        → has_method (method_of q) t ≡ has_method (method_of q) s
    has_method-by s t e = asked (method_of q) s t e

    kept_all :
        (ops : List (Op A)) (items : List (Item A)) (s : State A)
        → IsKept q items s
        → has_method (method_of q) s ≡ false
        → calls_for q (perform_all o ops s).calls ≡ (if comes ops then items ++ early ops else [])
    unfolding perform_all perform comes early observe taken_if provide
    kept_all [] items s k not_yet = k.called
    kept_all (observed j item ∷ ops) items s k not_yet =
        let one = taken j item in
        kept_all ops (items ++ one) (observe o j item s)
          (observe-IsKept items j item s (is_wanted o j) k not_yet)
          (has_method-by s (observe o j item s) (observe-provided j item s) ∙ not_yet)
        ∙ ap (λ l. if comes ops then l else []) (append_assoc items one (early ops))
    kept_all (left j item ∷ ops) items s k not_yet = kept_all ops items s k not_yet
    kept_all (came n ∷ ops) items s k not_yet =
        let t = record s { provided = λ j. is_method j n || s.provided j } in
        let kept : IsKept q items t = record { waits = k.waits; called = k.called } in
        elim (bool_cases (belongs q (kinds_of n))) [
          | inl e ↦
              closed_all ops items (release_each (kinds_of n) t)
                (release_each-listed q (kinds_of n) items t e kept)
              ∙ rw e (sym (append-nil items))
          | inr e ↦
              kept_all ops items (release_each (kinds_of n) t)
                (release_each-unlisted q (kinds_of n) items t e kept)
                (has_method-by t (release_each (kinds_of n) t)
                    (release_each-provided q (kinds_of n) t)
                  ∙ has_method-came n q s
                  ∙ rw e not_yet)
              ∙ rw e refl
        ]

    -- For each kind that has a method, whatever is observed and provided, in any order: the calls for
    -- the kind are the items of it that its configuration wants and that were observed before its method
    -- came, each once and in order, and none at all before the method comes.
    pub perform_all-early :
        (ops : List (Op A))
        → is_kind q other ≡ false
        → calls_for q (perform_all o ops new_state).calls ≡ (if comes ops then early ops else [])
    unfolding calls_for
    perform_all-early ops named =
        kept_all ops [] new_state (record { waits = first_waiting-named q named; called = refl })
          (no_method A (method_of q))
