-- ===== src/Slardar/Precollect/Steps.antt =====
-- What one step does to the items of a kind: it leaves them alone, adds one, or hands all over.
use ttlive_cpp.Prelude.{
  ◌≡◌, refl, sym, ap, ◌∙◌, ◌⊎◌, inl, inr, Bool, true, false, ◌||◌, List, [], ◌∷◌, ◌++◌, Option,
  none, some, if◌then◌else◌, if_has, if_true, if_false, arith,
}
use mathlib.Core.Path.{subst}
use mathlib.Core.List.{append_assoc, append-nil}
use ttlive_cpp.Slardar.Precollect.{
  Kind, sri, st, err, reject, other, Method, report_sri, report_resource_error, capture_exception,
  is_kind, method_of, kinds_of, is_method, Item, State, first_waiting, set_waiting, call,
  has_method, collect_in, call_each, waiting_list, release, release_each,
}

pub kind_cases : (q k : Kind) → (q ≡ k) ⊎ (is_kind q k ≡ false)
kind_cases sri sri = inl refl
kind_cases sri st = inr refl
kind_cases sri err = inr refl
kind_cases sri reject = inr refl
kind_cases sri other = inr refl
kind_cases st sri = inr refl
kind_cases st st = inl refl
kind_cases st err = inr refl
kind_cases st reject = inr refl
kind_cases st other = inr refl
kind_cases err sri = inr refl
kind_cases err st = inr refl
kind_cases err err = inl refl
kind_cases err reject = inr refl
kind_cases err other = inr refl
kind_cases reject sri = inr refl
kind_cases reject st = inr refl
kind_cases reject err = inr refl
kind_cases reject reject = inl refl
kind_cases reject other = inr refl
kind_cases other sri = inr refl
kind_cases other st = inr refl
kind_cases other err = inr refl
kind_cases other reject = inr refl
kind_cases other other = inl refl

pub is_kind_refl : (q : Kind) → is_kind q q ≡ true
is_kind_refl sri = refl
is_kind_refl st = refl
is_kind_refl err = refl
is_kind_refl reject = refl
is_kind_refl other = refl

pub first_waiting-named {ℓ} :
    {A : Type ℓ} (q : Kind) → is_kind q other ≡ false → first_waiting {A = A} q ≡ some []
first_waiting-named sri h = refl
first_waiting-named st h = refl
first_waiting-named err h = refl
first_waiting-named reject h = refl
first_waiting-named other h = cc

pub bool_cases : (b : Bool) → (b ≡ true) ⊎ (b ≡ false)
bool_cases true = inl refl
bool_cases false = inr refl

-- Is the kind among those?
unfoldable pub belongs : Kind → List Kind → Bool
belongs q [] = false
belongs q (k ∷ ks) = is_kind q k || belongs q ks

module _ {ℓ} {A : Type ℓ} where
  pub has_method-came :
      (n : Method) (q : Kind) (s : State A)
      → has_method (method_of q) (record s { provided = λ j. is_method j n || s.provided j })
        ≡ (belongs q (kinds_of n) || has_method (method_of q) s)
  unfolding belongs
  has_method-came report_sri sri s = refl
  has_method-came report_sri st s = refl
  has_method-came report_sri err s = refl
  has_method-came report_sri reject s = refl
  has_method-came report_sri other s = refl
  has_method-came report_resource_error sri s = refl
  has_method-came report_resource_error st s = refl
  has_method-came report_resource_error err s = refl
  has_method-came report_resource_error reject s = refl
  has_method-came report_resource_error other s = refl
  has_method-came capture_exception sri s = refl
  has_method-came capture_exception st s = refl
  has_method-came capture_exception err s = refl
  has_method-came capture_exception reject s = refl
  has_method-came capture_exception other s = refl

  -- The items of the calls for a kind.
  unfoldable pub calls_for : Kind → List (Kind × Item A) → List (Item A)
  calls_for q [] = []
  calls_for q ((k, item) ∷ cs) = if is_kind q k then item ∷ calls_for q cs else calls_for q cs

  pub calls_for-append :
      (q : Kind) (a b : List (Kind × Item A))
      → calls_for q (a ++ b) ≡ calls_for q a ++ calls_for q b
  unfolding calls_for
  calls_for-append q [] b = refl
  calls_for-append q ((k, item) ∷ a) b = ground (arith, calls_for-append q a b)

  module _ (q : Kind) where
    -- What does not touch a kind.
    pub record IsApart (s t : State A) : Type ℓ where
      pub waits : t.waiting q ≡ s.waiting q
      pub called : calls_for q t.calls ≡ calls_for q s.calls
      pub known : t.provided ≡ s.provided

    IsApart-then : (s t u : State A) → IsApart s t → IsApart t u → IsApart s u
    IsApart-then s t u a b = record {
      waits = b.waits ∙ a.waits;
      called = b.called ∙ a.called;
      known = b.known ∙ a.known;
    }

    call-IsApart :
        (k : Kind) (item : Item A) (s : State A) → is_kind q k ≡ false → IsApart s (call k item s)
    unfolding call calls_for
    call-IsApart k item s h = record {
      waits = refl;
      known = refl;
      called =
          calls_for-append q s.calls ((k, item) ∷ []) ∙ rw h (append-nil (calls_for q s.calls));
    }

    set_waiting-IsApart :
        (k : Kind) (o : Option (List (Item A))) (s : State A)
        → is_kind q k ≡ false
        → IsApart s (set_waiting k o s)
    unfolding set_waiting
    set_waiting-IsApart k o s h = record { waits = if_false o h; called = refl; known = refl }

    call_each-IsApart :
        (k : Kind) (items : List (Item A)) (s : State A)
        → is_kind q k ≡ false
        → IsApart s (call_each k items s)
    unfolding call_each
    call_each-IsApart k [] s h = record { waits = refl; called = refl; known = refl }
    call_each-IsApart k (item ∷ items) s h =
        IsApart-then s (call k item s) (call_each k items (call k item s)) (call-IsApart k item s h)
          (call_each-IsApart k items (call k item s) h)

    release-IsApart : (k : Kind) (s : State A) → is_kind q k ≡ false → IsApart s (release k s)
    unfolding release
    release-IsApart k s h =
        let t = call_each k (waiting_list (s.waiting k)) s in
        IsApart-then s t (set_waiting k none t)
          (call_each-IsApart k (waiting_list (s.waiting k)) s h) (set_waiting-IsApart k none t h)

    pub collect_in-IsApart :
        (o : Option (List (Item A))) (k : Kind) (item : Item A) (s : State A)
        → is_kind q k ≡ false
        → IsApart s (collect_in o k item s)
    collect_in-IsApart none k item s h = record { waits = refl; called = refl; known = refl }
    collect_in-IsApart (some items) k item s h =
        if_has (IsApart s) (has_method (method_of k) s) (λ _. call-IsApart k item s h)
          (λ _. set_waiting-IsApart k (some (items ++ (item ∷ []))) s h)

    -- The items wait; or what waited was handed over, and no more is taken.
    pub record IsKept (items : List (Item A)) (s : State A) : Type ℓ where
      pub waits : s.waiting q ≡ some items
      pub called : calls_for q s.calls ≡ []

    pub record IsClosed (items : List (Item A)) (s : State A) : Type ℓ where
      pub waits : s.waiting q ≡ none
      pub called : calls_for q s.calls ≡ items

    pub IsApart-IsKept :
        (items : List (Item A)) (s t : State A) → IsApart s t → IsKept items s → IsKept items t
    IsApart-IsKept items s t a k = record {
      waits = a.waits ∙ k.waits;
      called = a.called ∙ k.called;
    }

    pub IsApart-IsClosed :
        (items : List (Item A)) (s t : State A) → IsApart s t → IsClosed items s → IsClosed items t
    IsApart-IsClosed items s t a k = record {
      waits = a.waits ∙ k.waits;
      called = a.called ∙ k.called;
    }

    call_each-own :
        (items : List (Item A)) (s : State A)
        → calls_for q (call_each q items s).calls ≡ calls_for q s.calls ++ items
    unfolding call_each call calls_for
    call_each-own [] s = sym (append-nil (calls_for q s.calls))
    call_each-own (item ∷ items) s =
        call_each-own items (call q item s)
        ∙ ap (λ l. l ++ items)
            (calls_for-append q s.calls ((q, item) ∷ [])
              ∙ ap (λ l. calls_for q s.calls ++ l) (if_true [] (is_kind_refl q)))
        ∙ append_assoc (calls_for q s.calls) (item ∷ []) items

    release-IsClosed :
        (items : List (Item A)) (s : State A) → IsKept items s → IsClosed items (release q s)
    unfolding release set_waiting
    release-IsClosed items s k = record {
      waits = if_true _ (is_kind_refl q);
      called =
          ap (λ o. calls_for q (call_each q (waiting_list o) s).calls) k.waits
          ∙ call_each-own items s
          ∙ ap (λ l. l ++ items) k.called;
    }

    again-IsClosed :
        (items : List (Item A)) (s : State A) → IsClosed items s → IsClosed items (release q s)
    unfolding release set_waiting call_each
    again-IsClosed items s k = record {
      waits = if_true _ (is_kind_refl q);
      called = ap (λ o. calls_for q (call_each q (waiting_list o) s).calls) k.waits ∙ k.called;
    }

    pub release_each-IsClosed :
        (ks : List Kind) (items : List (Item A)) (s : State A)
        → IsClosed items s
        → IsClosed items (release_each ks s)
    unfolding release_each
    release_each-IsClosed [] items s c = c
    release_each-IsClosed (k ∷ ks) items s c =
        release_each-IsClosed ks items (release k s) (elim (kind_cases q k) [
          | inl e ↦ subst (λ j. IsClosed items (release j s)) e (again-IsClosed items s c)
          | inr h ↦ IsApart-IsClosed items s (release k s) (release-IsApart k s h) c
        ])

    call_each-provided :
        (k : Kind) (items : List (Item A)) (s : State A)
        → (call_each k items s).provided ≡ s.provided
    unfolding call_each call
    call_each-provided k [] s = refl
    call_each-provided k (item ∷ items) s = call_each-provided k items (call k item s)

    pub release_each-provided :
        (ks : List Kind) (s : State A) → (release_each ks s).provided ≡ s.provided
    unfolding release_each release set_waiting
    release_each-provided [] s = refl
    release_each-provided (k ∷ ks) s =
        release_each-provided ks (release k s) ∙ call_each-provided k (waiting_list (s.waiting k)) s

    pub release_each-listed :
        (ks : List Kind) (items : List (Item A)) (s : State A)
        → belongs q ks ≡ true
        → IsKept items s
        → IsClosed items (release_each ks s)
    unfolding release_each belongs
    release_each-listed [] items s h k = cc
    release_each-listed (j ∷ ks) items s h k = elim (kind_cases q j) [
      | inl e ↦
          release_each-IsClosed ks items (release j s)
            (subst (λ i. IsClosed items (release i s)) e (release-IsClosed items s k))
      | inr differs ↦
          release_each-listed ks items (release j s) (ground (arith, h, differs))
            (IsApart-IsKept items s (release j s) (release-IsApart j s differs) k)
    ]

    pub release_each-unlisted :
        (ks : List Kind) (items : List (Item A)) (s : State A)
        → belongs q ks ≡ false
        → IsKept items s
        → IsKept items (release_each ks s)
    unfolding release_each belongs
    release_each-unlisted [] items s h k = k
    release_each-unlisted (j ∷ ks) items s h k =
        release_each-unlisted ks items (release j s) (ground (arith, h))
          (IsApart-IsKept items s (release j s) (release-IsApart j s (ground (arith, h))) k)
