-- ===== src/Slardar/Subject/Closing.antt =====
-- When a subject closes.
use ttlive_cpp.Prelude.{
  ℕ, ◌≡◌, refl, Bool, true, false, List, [], ◌∷◌, Option, none, some, ◌==◌, arith, if_has,
}
use ttlive_cpp.Slardar.Util.{without}
use ttlive_cpp.Slardar.Subject.{
  Subject, new_subject, is_nil, watch, subscribe, unsubscribe, time_out, complete, attach, Call,
  do_subscribe, do_unsubscribe, do_complete, do_attach, do_time_out, or_same, perform, perform_all,
}

-- The timer runs only while there are no observers, and a closed subject has none.
pub record IsQuiet (s : Subject) : Type 0 where
  pub waiting : s.armed ≡ true → s.observers ≡ []
  pub over : s.closed ≡ true → s.observers ≡ []
  pub forever : s.lasting ≡ true → s.armed ≡ false

is_nil-eq : (xs : List ℕ) → is_nil xs ≡ true → xs ≡ []
is_nil-eq [] h = refl
is_nil-eq (x ∷ xs) h = cc

watch-IsQuiet :
    (s : Subject) → s.closed ≡ false → (s.lasting ≡ true → s.armed ≡ false) → IsQuiet (watch s)
unfolding watch
watch-IsQuiet s h f =
    if_has IsQuiet s.lasting
      (λ l. record { waiting = λ a. ground (arith, f l); over = λ c. cc; forever = λ _. f l })
      (λ l. record { waiting = λ a. is_nil-eq s.observers a; over = λ c. cc; forever = λ k. cc })

or_same-IsQuiet :
    (s : Subject) (o : Option Subject)
    → IsQuiet s
    → ((s' : Subject) → o ≡ some s' → IsQuiet s')
    → IsQuiet (or_same s o)
or_same-IsQuiet s none q h = q
or_same-IsQuiet s (some s') q h = h s' refl

without-nil : (n : ℕ) (xs : List ℕ) → xs ≡ [] → without (◌==◌) xs n ≡ []
unfolding without
without-nil n [] h = refl
without-nil n (x ∷ xs) h = cc

subscribe-IsQuiet : (n : ℕ) (s : Subject) → IsQuiet s → IsQuiet (or_same s (subscribe n s))
unfolding subscribe
subscribe-IsQuiet n s q =
    if_has (λ o. IsQuiet (or_same s o)) s.closed (λ _. q) (λ h. watch-IsQuiet _ h q.forever)

unsubscribe-IsQuiet : (n : ℕ) (s : Subject) → IsQuiet s → IsQuiet (unsubscribe n s)
unfolding unsubscribe
unsubscribe-IsQuiet n s q =
    if_has IsQuiet s.closed
      (λ h. record {
        waiting = λ a. without-nil n s.observers (q.waiting a);
        over = λ c. without-nil n s.observers (q.over c);
        forever = q.forever;
      })
      (λ h. watch-IsQuiet _ h q.forever)

time_out-IsQuiet : (s : Subject) → IsQuiet s → IsQuiet (time_out s)
unfolding time_out
time_out-IsQuiet s q =
    if_has IsQuiet s.armed
      (λ h. record { waiting = λ a. cc; over = λ _. q.waiting h; forever = λ _. refl }) (λ _. q)

perform-IsQuiet : (c : Call) (s : Subject) → IsQuiet s → IsQuiet (perform c s)
unfolding perform complete attach
perform-IsQuiet (do_subscribe n) s q = subscribe-IsQuiet n s q
perform-IsQuiet (do_unsubscribe n) s q = unsubscribe-IsQuiet n s q
perform-IsQuiet (do_complete f) s q = record {
  waiting = q.waiting;
  over = q.over;
  forever = q.forever;
}
perform-IsQuiet (do_attach src) s q = record {
  waiting = q.waiting;
  over = q.over;
  forever = q.forever;
}
perform-IsQuiet do_time_out s q = time_out-IsQuiet s q

perform_all-IsQuiet : (cs : List Call) (s : Subject) → IsQuiet s → IsQuiet (perform_all cs s)
unfolding perform_all
perform_all-IsQuiet [] s q = q
perform_all-IsQuiet (c ∷ cs) s q = perform_all-IsQuiet cs _ (perform-IsQuiet c s q)

-- Whatever observers come and go and whenever the timer runs out: a subject that has closed has no
-- observers, so no observer is cut off.
pub perform_all-closed :
    (cs : List Call) (lasting : Bool)
    → (perform_all cs (new_subject lasting)).closed ≡ true
    → (perform_all cs (new_subject lasting)).observers ≡ []
unfolding new_subject
perform_all-closed cs lasting =
    (perform_all-IsQuiet cs (new_subject lasting)
      (record { waiting = λ h. cc; over = λ h. cc; forever = λ _. refl })).over
