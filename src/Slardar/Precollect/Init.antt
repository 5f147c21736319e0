-- ===== src/Slardar/Precollect/Init.antt =====
-- What becomes of the items from before and after `init`.
use ttlive_cpp.Prelude.{
  ◌≡◌, refl, sym, ap, ◌∙◌, Bool, true, false, ◌&&◌, ◌||◌, List, [], ◌∷◌, ◌++◌, if◌then◌else◌, arith,
}
use mathlib.Core.List.{append_assoc, append-nil}
use ttlive_cpp.Slardar.Precollect.{
  Kind, other, Options, is_kind, kinds_of, Item, State, new_state, is_wanted, observe, Op, observed,
  came, perform, perform_all, Early, pushed, asked, provided, Page, new_page, prepare, prepare_all,
  observe_each, start, run,
}
use ttlive_cpp.Slardar.Precollect.Steps.{belongs, calls_for}
use ttlive_cpp.Slardar.Precollect.Order.{comes, early, perform_all-early}

module _ {ℓ} {A : Type ℓ} where
  -- What was put into the array, what was asked, and which methods came, in their orders.
  abbrev pub pushes : List (Early A) → List (Kind × Item A)
  pushes [] = []
  pushes (pushed k item ∷ es) = (k, item) ∷ pushes es
  pushes (asked k item ∷ es) = pushes es
  pushes (provided m ∷ es) = pushes es

  abbrev pub asks : List (Early A) → List (Kind × Item A)
  asks [] = []
  asks (pushed k item ∷ es) = asks es
  asks (asked k item ∷ es) = (k, item) ∷ asks es
  asks (provided m ∷ es) = asks es

  abbrev methods : List (Early A) → List (Op A)
  methods [] = []
  methods (pushed k item ∷ es) = methods es
  methods (asked k item ∷ es) = methods es
  methods (provided m ∷ es) = came m ∷ methods es

  abbrev observations : List (Kind × Item A) → List (Op A)
  observations [] = []
  observations ((k, item) ∷ items) = observed k item ∷ observations items

  perform_all-append :
      (o : Options) (a b : List (Op A)) (s : State A)
      → perform_all o (a ++ b) s ≡ perform_all o b (perform_all o a s)
  unfolding perform_all
  perform_all-append o [] b s = refl
  perform_all-append o (op ∷ a) b s = perform_all-append o a b (perform o op s)

  observe_each-perform_all :
      (o : Options) (items : List (Kind × Item A)) (s : State A)
      → observe_each o items s ≡ perform_all o (observations items) s
  unfolding observe_each perform_all perform
  observe_each-perform_all o [] s = refl
  observe_each-perform_all o ((k, item) ∷ items) s =
      observe_each-perform_all o items (observe o k item s)

  prepare_all-Page :
      (o : Options) (es : List (Early A)) (p : Page A)
      → prepare_all es p ≡ record {
        items = p.items ++ pushes es;
        asks = p.asks ++ asks es;
        state = perform_all o (methods es) p.state;
      }
  unfolding prepare_all prepare perform_all perform
  prepare_all-Page o [] p = rw (append-nil p.items) (rw (append-nil p.asks) refl)
  prepare_all-Page o (pushed k item ∷ es) p =
      prepare_all-Page o es (prepare (pushed k item) p)
      ∙ ap {B = Page A}
          (λ l. record {
            items = l;
            asks = p.asks ++ asks es;
            state = perform_all o (methods es) p.state;
          })
          (append_assoc p.items ((k, item) ∷ []) (pushes es))
  prepare_all-Page o (asked k item ∷ es) p =
      prepare_all-Page o es (prepare (asked k item) p)
      ∙ ap {B = Page A}
          (λ l. record {
            items = p.items ++ pushes es;
            asks = l;
            state = perform_all o (methods es) p.state;
          })
          (append_assoc p.asks ((k, item) ∷ []) (asks es))
  prepare_all-Page o (provided m ∷ es) p = prepare_all-Page o es (prepare (provided m) p)

  -- The same as one history behind `init`.
  abbrev whole : List (Early A) → List (Op A) → List (Op A)
  whole before behind =
      methods before ++ (observations (pushes before) ++ (observations (asks before) ++ behind))

  run-whole :
      (o : Options) (before : List (Early A)) (behind : List (Op A))
      → run o before behind ≡ perform_all o (whole before behind) new_state
  unfolding run start
  run-whole o before behind =
      let first = methods before in
      let items = observations (pushes before) in
      let rest = observations (asks before) in
      let s = perform_all o first new_state in
      ap (λ (p : Page A). perform_all o behind (start o p)) (prepare_all-Page o before new_page)
      ∙ ap (λ t. perform_all o behind (observe_each o (asks before) t))
          (observe_each-perform_all o (pushes before) s)
      ∙ ap (perform_all o behind) (observe_each-perform_all o (asks before) (perform_all o items s))
      ∙ sym (perform_all-append o rest behind (perform_all o items s))
      ∙ sym (perform_all-append o items (rest ++ behind) s)
      ∙ sym (perform_all-append o first (items ++ (rest ++ behind)) new_state)

  module _ (o : Options) (q : Kind) where
    -- Is the method of the kind there before `init`?
    abbrev pub comes_before : List (Early A) → Bool
    comes_before [] = false
    comes_before (pushed k item ∷ es) = comes_before es
    comes_before (asked k item ∷ es) = comes_before es
    comes_before (provided m ∷ es) = belongs q (kinds_of m) || comes_before es

    -- The items of the kind that the configuration wants.
    abbrev pub select : List (Kind × Item A) → List (Item A)
    select [] = []
    select ((k, item) ∷ items) =
        if is_kind q k && is_wanted o k then item ∷ select items else select items

    methods-comes :
        (es : List (Early A)) (ops : List (Op A))
        → comes o q (methods es ++ ops) ≡ (comes_before es || comes o q ops)
    unfolding comes
    methods-comes [] ops = refl
    methods-comes (pushed k item ∷ es) ops = methods-comes es ops
    methods-comes (asked k item ∷ es) ops = methods-comes es ops
    methods-comes (provided m ∷ es) ops = ground (arith, methods-comes es ops)

    methods-early :
        (es : List (Early A)) (ops : List (Op A))
        → early o q (methods es ++ ops) ≡ (if comes_before es then [] else early o q ops)
    unfolding early
    methods-early [] ops = refl
    methods-early (pushed k item ∷ es) ops = methods-early es ops
    methods-early (asked k item ∷ es) ops = methods-early es ops
    methods-early (provided m ∷ es) ops = ground (arith, methods-early es ops)

    observations-comes :
        (items : List (Kind × Item A)) (ops : List (Op A))
        → comes o q (observations items ++ ops) ≡ comes o q ops
    unfolding comes
    observations-comes [] ops = refl
    observations-comes ((k, item) ∷ items) ops = observations-comes items ops

    observations-early :
        (items : List (Kind × Item A)) (ops : List (Op A))
        → early o q (observations items ++ ops) ≡ select items ++ early o q ops
    unfolding early
    observations-early [] ops = refl
    observations-early ((k, item) ∷ items) ops = ground (arith, observations-early items ops)

    gated :
        (b c : Bool) (x : List (Item A))
        → (if b || c then (if b then [] else x) else []) ≡ (if b then [] else if c then x else [])
    gated true c x = refl
    gated false c x = refl

    -- For each kind that has a method, with a configuration that is found at `init`: if the method is
    -- there before `init`, it is called for no item; if it comes afterwards, it is called, once each and
    -- in this order, for the items of the kind that the configuration wants among those that the page
    -- put into its array, those that `precollect` was asked before `init`, and those that it was asked
    -- from then on until the method came; and if it never comes, for none. What the page puts into its
    -- array after `init` is not called for.
    pub run-calls :
        (before : List (Early A)) (behind : List (Op A))
        → is_kind q other ≡ false
        → calls_for q (run o before behind).calls ≡ (
            if comes_before before
            then []
            else if comes o q behind
            then select (pushes before) ++ (select (asks before) ++ early o q behind)
            else [])
    run-calls before behind named =
        let items = observations (pushes before) in
        let rest = observations (asks before) in
        let c : comes o q (whole before behind) ≡ (comes_before before || comes o q behind) =
          methods-comes before (items ++ (rest ++ behind))
          ∙ ap (λ b. comes_before before || b)
              (observations-comes (pushes before) (rest ++ behind)
                ∙ observations-comes (asks before) behind) in
        let x = select (pushes before) ++ (select (asks before) ++ early o q behind) in
        let e : early o q (whole before behind) ≡ (if comes_before before then [] else x) =
          methods-early before (items ++ (rest ++ behind))
          ∙ ap (λ l. if comes_before before then [] else l)
              (observations-early (pushes before) (rest ++ behind)
                ∙ ap (λ l. select (pushes before) ++ l)
                    (observations-early (asks before) behind)) in
        ap (λ (s : State A). calls_for q s.calls) (run-whole o before behind)
        ∙ perform_all-early o q (whole before behind) named
        ∙ ap (λ b. if b then early o q (whole before behind) else []) c
        ∙ ap (λ l. if comes_before before || comes o q behind then l else []) e
        ∙ gated (comes_before before) (comes o q behind) x
