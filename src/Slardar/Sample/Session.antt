-- ===== src/Slardar/Sample/Session.antt =====
-- Sampling by session.
use ttlive_cpp.Prelude.{
  ◌≡◌, refl, ap, ◌∙◌, Bool, true, false, List, [], Option, none, some, if_true, if_false,
}
use ttlive_cpp.Js.Text.{Text, same}
use ttlive_cpp.Slardar.Util.{includes}
use ttlive_cpp.Slardar.Sample.{
  Numbers, Event, Sampling, Rule, Fate, dropped, marked, Cut, nothing, everything, monitors_of, hit,
  passes_at, by_rule, cut_of, cut_without, unless_marked, ruled, rule_for, in_sample, decide,
}

module _ {Num : Type 0} (N : Numbers Num) (matches : List Text → Text → Option Bool) {W : Type 0}
    (draw : Num → W → Bool × W) where
  hit-session :
      (s : Sampling Num) (rate : Num) (w : W)
      → s.by_session ≡ true
      → hit N matches draw s rate w ≡ (N.less s.r rate, w)
  unfolding hit
  hit-session s rate w h = if_true _ h

  -- What becomes of an event of a type by the outcomes of the client's test and the rule's.
  abbrev pub session_fate : Sampling Num → Text → Num → W → Bool → Bool → Fate Num × Cut × W
  session_fate s ty rate w true true = (marked (N.times rate s.sample_rate), nothing, w)
  session_fate s ty rate w true false = (dropped, monitors_of ty, w)
  session_fate s ty rate w false b = (dropped, everything, w)

  passes_fate :
      (s : Sampling Num) (ty : Text) (rate : Num) (w : W) (b : Bool)
      → passes_at N matches draw (N.times rate s.sample_rate) (monitors_of ty) (b, w)
        ≡ session_fate s ty rate w true b
  passes_fate s ty rate w true = refl
  passes_fate s ty rate w false = refl

  module _ (s : Sampling Num) (ev : Event Num) (r : Rule Num) (w : W)
      (h : s.by_session ≡ true) where
    by_rule-session :
        r.conditional ≡ []
        → by_rule N matches draw s ev r.rate
            (cut_without N matches draw s ev.ev_type r.conditional)
            r.conditional
            w
          ≡ session_fate s ev.ev_type r.rate w true (N.less s.r r.rate)
    unfolding by_rule
    by_rule-session c =
        ap
          (λ cs.
            by_rule N matches draw s ev r.rate (cut_without N matches draw s ev.ev_type cs) cs w)
          c
        ∙ ap
            (passes_at N matches draw (N.times r.rate s.sample_rate)
              (cut_of N matches draw s ev.ev_type))
            (hit-session s r.rate w h)
        ∙ ap
            (λ cut.
              passes_at N matches draw (N.times r.rate s.sample_rate) cut (N.less s.r r.rate, w))
            (if_true _ h)
        ∙ passes_fate s ev.ev_type r.rate w (N.less s.r r.rate)

    in_sample-session :
        (b : Bool)
        → rule_for N matches draw ev.ev_type s.rules ≡ some r
        → r.enable ≡ true
        → r.conditional ≡ []
        → ev.sample_rate ≡ none
        → in_sample N matches draw s ev (b, w)
          ≡ session_fate s ev.ev_type r.rate w b (N.less s.r r.rate)
    in_sample-session false f e c m = ap (λ cut. (dropped, cut, w)) (if_true _ h)
    in_sample-session true f e c m =
        ap (λ o. ruled N matches draw s ev o w) f
        ∙ if_true _ e
        ∙ ap
            (λ o.
              unless_marked N matches draw o
                (by_rule N matches draw s ev r.rate
                  (cut_without N matches draw s ev.ev_type r.conditional) r.conditional w)
                w)
            m
        ∙ by_rule-session c

  -- With sampling by session, for a user who is not listed, and an event without a rate of its own
  -- whose type has a rule that is enabled and has no conditional rules: the event passes exactly
  -- if the one number of the session is below the rate of the client and below that of the rule,
  -- it is then marked with their product, and otherwise what cannot pass any more is torn down.
  pub decide-session :
      (user : Text) (s : Sampling Num) (ev : Event Num) (r : Rule Num) (w : W)
      → s.by_session ≡ true
      → includes same s.include_users user ≡ false
      → rule_for N matches draw ev.ev_type s.rules ≡ some r
      → r.enable ≡ true
      → r.conditional ≡ []
      → ev.sample_rate ≡ none
      → decide N matches draw user (some s) ev w
        ≡ session_fate s ev.ev_type r.rate w (N.less s.r s.sample_rate) (N.less s.r r.rate)
  unfolding decide
  decide-session user s ev r w h u f e c m =
      if_false _ u
      ∙ ap (in_sample N matches draw s ev) (hit-session s s.sample_rate w h)
      ∙ in_sample-session s ev r w h (N.less s.r s.sample_rate) f e c m
