-- ===== src/Slardar/Agent/Once.antt =====
-- Each function is called once.
use ttlive_cpp.Prelude.{
  ℕ, ◌+◌, ◌≡◌, refl, ap, true, List, [], ◌∷◌, ◌++◌, Option, none, some, ◌==◌, if◌then◌else◌, arith,
  if_has, Bool-cases, inl, inr,
}
use ttlive_cpp.Js.Text.{Text, same}
use ttlive_cpp.Slardar.Agent.{
  Entry, Entries, Agent, new_agent, pushed, add_entry, set, fns_of, fns_at, taken, dropped, remove,
  taken_by, emptied_by, taken_at, emptied_at, taken_all_by, emptied_all_by, remove_by_ev_type,
  pending, all_dropped, clear, Call, do_set, do_remove, do_remove_by, do_clear, perform,
  perform_all,
}

abbrev pub count : ℕ → List ℕ → ℕ
count f [] = 0
count f (g ∷ gs) = (if g == f then 1 else 0) + count f gs

module _ (f : ℕ) where
  count-append : (xs ys : List ℕ) → count f (xs ++ ys) ≡ count f xs + count f ys
  count-append [] ys = omega arith
  count-append (x ∷ xs) ys = omega (arith, count-append xs ys)

  count-fns_of :
      (es : List Entry) (e : Entry)
      → count f (fns_of (es ++ (e ∷ []))) ≡ count f (fns_of es) + count f e.fns
  unfolding fns_of
  count-fns_of [] e = omega (arith, count-append e.fns [])
  count-fns_of (x ∷ es) e = omega (
    arith,
    count-fns_of es e,
    count-append x.fns (fns_of (es ++ (e ∷ []))),
    count-append x.fns (fns_of es),
  )

  count-pushed :
      (o : Option (List Entry)) (e : Entry)
      → count f (fns_of (pushed o e)) ≡ count f (fns_at o) + count f e.fns
  unfolding fns_of
  count-pushed none e = omega (arith, count-append e.fns [])
  count-pushed (some es) e = count-fns_of es e

  Adds : ℕ → Entries → Entries → Type 0
  Adds n es es' = count f (pending es') ≡ count f (pending es) + n

  count-add :
      (name : Text) (e : Entry) (es : Entries)
      → count f (pending (add_entry name e es)) ≡ count f (pending es) + count f e.fns
  unfolding add_entry pending Adds
  count-add name e [] = omega (arith, count-pushed none e, count-append (fns_of (e ∷ [])) [])
  count-add name e ((j, o) ∷ rest) =
      if_has (Adds (count f e.fns) ((j, o) ∷ rest)) (same j name)
        (λ _. omega (
          arith,
          count-pushed o e,
          count-append (fns_of (pushed o e)) (pending rest),
          count-append (fns_at o) (pending rest),
        ))
        (λ _. omega (
          arith,
          count-add name e rest,
          count-append (fns_at o) (pending (add_entry name e rest)),
          count-append (fns_at o) (pending rest),
        ))

  Splits : List ℕ → Entries → Entries → Type 0
  Splits out es es' = count f out + count f (pending es') ≡ count f (pending es)

  count-dropped : (name : Text) (es : Entries) → Splits (taken name es) es (dropped name es)
  unfolding taken dropped pending Splits
  count-dropped name [] = omega arith
  count-dropped name ((j, o) ∷ rest) = elim (Bool-cases (same j name)) [
    | inl e ↦ rw e (omega (arith, count-append (fns_at o) (pending rest)))
    | inr e ↦ rw e (
        omega (
          arith,
          count-dropped name rest,
          count-append (fns_at o) (pending rest),
          count-append (fns_at o) (pending (dropped name rest)),
        ))
  ]

  count-emptied :
      (ty : Text) (es : List Entry)
      → count f (taken_by ty es) + count f (fns_of (emptied_by ty es)) ≡ count f (fns_of es)
  unfolding taken_by emptied_by fns_of
  count-emptied ty [] = omega arith
  count-emptied ty (e ∷ es) = elim (Bool-cases (same e.ev_type ty)) [
    | inl h ↦ rw h (
        omega (
          arith,
          count-emptied ty es,
          count-append e.fns (taken_by ty es),
          count-append e.fns (fns_of es),
        ))
    | inr h ↦ rw h (
        omega (
          arith,
          count-emptied ty es,
          count-append e.fns (fns_of (emptied_by ty es)),
          count-append e.fns (fns_of es),
        ))
  ]

  count-emptied_at :
      (ty : Text) (o : Option (List Entry))
      → count f (taken_at ty o) + count f (fns_at (emptied_at ty o)) ≡ count f (fns_at o)
  count-emptied_at ty none = omega arith
  count-emptied_at ty (some es) = count-emptied ty es

  count-emptied_all :
      (ty : Text) (es : Entries) → Splits (taken_all_by ty es) es (emptied_all_by ty es)
  unfolding taken_all_by emptied_all_by pending Splits
  count-emptied_all ty [] = omega arith
  count-emptied_all ty ((j, o) ∷ rest) = omega (
    arith,
    count-emptied_at ty o,
    count-emptied_all ty rest,
    count-append (taken_at ty o) (taken_all_by ty rest),
    count-append (fns_at (emptied_at ty o)) (pending (emptied_all_by ty rest)),
    count-append (fns_at o) (pending rest),
  )

  pending-all_dropped : (es : Entries) → pending (all_dropped es) ≡ []
  unfolding pending all_dropped
  pending-all_dropped [] = refl
  pending-all_dropped ((j, o) ∷ rest) = pending-all_dropped rest

  -- All that the agent holds or has called.
  abbrev total : Agent → ℕ
  total a = count f a.ran + count f (pending a.entries)

  abbrev pub given : Call → ℕ
  given (do_set name ty fns) = count f fns
  given _ = 0

  abbrev pub given_all : List Call → ℕ
  given_all [] = 0
  given_all (c ∷ cs) = given c + given_all cs

  total-perform : (c : Call) (a : Agent) → total (perform c a) ≡ total a + given c
  unfolding perform set remove remove_by_ev_type clear Adds Splits
  total-perform (do_set name ty fns) a = elim (Bool-cases a.cleared) [
    | inl h ↦ rw h (
        omega (
          arith,
          count-append a.ran fns,
          count-add name (record { ev_type = ty; fns = [] }) a.entries,
        ))
    | inr h ↦ rw h (omega (arith, count-add name (record { ev_type = ty; fns = fns }) a.entries))
  ]
  total-perform (do_remove name) a =
      omega (arith, count-append a.ran (taken name a.entries), count-dropped name a.entries)
  total-perform (do_remove_by ty) a =
      omega (arith, count-append a.ran (taken_all_by ty a.entries), count-emptied_all ty a.entries)
  total-perform do_clear a =
      omega (
        arith,
        count-append a.ran (pending a.entries),
        ap (count f) (pending-all_dropped a.entries),
      )

  total-perform_all :
      (cs : List Call) (a : Agent) → total (perform_all cs a) ≡ total a + given_all cs
  unfolding perform_all
  total-perform_all [] a = omega arith
  total-perform_all (c ∷ cs) a =
      omega (arith, total-perform c a, total-perform_all cs (perform c a))

  -- A cleared agent holds nothing.
  IsSpent : Agent → Type 0
  IsSpent a = a.cleared ≡ true → count f (pending a.entries) ≡ 0

  perform-IsSpent : (c : Call) (a : Agent) → IsSpent a → IsSpent (perform c a)
  unfolding perform set remove remove_by_ev_type clear Adds Splits IsSpent
  perform-IsSpent (do_set name ty fns) a h = elim (Bool-cases a.cleared) [
    | inl e ↦
        rw e (λ _. omega (arith, h e, count-add name (record { ev_type = ty; fns = [] }) a.entries))
    | inr e ↦ rw e (λ k. cc)
  ]
  perform-IsSpent (do_remove name) a h = λ k. omega (arith, h k, count-dropped name a.entries)
  perform-IsSpent (do_remove_by ty) a h = λ k. omega (arith, h k, count-emptied_all ty a.entries)
  perform-IsSpent do_clear a h = λ k. ap (count f) (pending-all_dropped a.entries)

  perform_all-IsSpent : (cs : List Call) (a : Agent) → IsSpent a → IsSpent (perform_all cs a)
  unfolding perform_all
  perform_all-IsSpent [] a h = h
  perform_all-IsSpent (c ∷ cs) a h = perform_all-IsSpent cs (perform c a) (perform-IsSpent c a h)

  -- Once an agent is cleared, each function has been called exactly as often as it was given, by the
  -- clearing or before it or, where it was given later, at once.
  pub perform_all-cleared :
      (cs : List Call)
      → (perform_all cs new_agent).cleared ≡ true
      → count f (perform_all cs new_agent).ran ≡ given_all cs
  unfolding pending IsSpent
  perform_all-cleared cs h =
      omega (arith, total-perform_all cs new_agent, perform_all-IsSpent cs new_agent (λ k. refl) h)
