-- ===== src/Live/Dispatch/Ended.antt =====
-- Who is called by `emit`, and when a batch of messages ends the LIVE.
use mathlib.Core.List.{foldl}
use ttlive_cpp.Prelude.{
  ℕ, ◌≡◌, refl, sym, ap, ◌∙◌, inl, inr, Bool, false, ◌||◌, List, [], ◌∷◌, ◌++◌, if◌then◌else◌,
  arith, Bool-cases, any,
}
use ttlive_cpp.Prelude.Int.{ℤ}
use ttlive_cpp.Live.Event.{EventType, live_end, Event, same_type}
use ttlive_cpp.Live.Dispatch.{
  Handlers, on, on_any, Message, Shared, Client, Program, call_one, call_each, emit, event_of,
  deliver, process_fetch_result,
}
use ttlive_cpp.Live.Dispatch.Once.{fresh, HasSeen, process_fetch_result-fresh, deliver_all}

-- A registration: of a callback for one type, or for every event.
pub data Registration : Type 0 where
  for_type : EventType → ℕ → Registration
  for_any : ℕ → Registration

unfoldable pub register : Handlers → Registration → Handlers
register h (for_type t cb) = on t cb h
register h (for_any cb) = on_any cb h

-- The callbacks of a list of registrations that an event of type `t` reaches.
abbrev pub among_any : List Registration → List ℕ
among_any [] = []
among_any (for_any cb ∷ rs) = cb ∷ among_any rs
among_any (for_type t cb ∷ rs) = among_any rs

abbrev pub among_typed : EventType → List Registration → List ℕ
among_typed t [] = []
among_typed t (for_any cb ∷ rs) = among_typed t rs
among_typed t (for_type u cb ∷ rs) =
    if same_type u t then cb ∷ among_typed t rs else among_typed t rs

abbrev no_handlers : Handlers
no_handlers = record { any = []; by_type = λ t. [] }

append_one :
    {A : Type 0} (xs : List A) (x : A) (ys : List A) → (xs ++ (x ∷ [])) ++ ys ≡ xs ++ (x ∷ ys)
append_one [] x ys = refl
append_one (y ∷ xs) x ys = ap (λ zs. y ∷ zs) (append_one xs x ys)

append_nothing : {A : Type 0} (xs : List A) → xs ++ [] ≡ xs
append_nothing [] = refl
append_nothing (x ∷ xs) = ap (λ zs. x ∷ zs) (append_nothing xs)

registered_any :
    (rs : List Registration) (h : Handlers) → (foldl register h rs).any ≡ h.any ++ among_any rs
unfolding register on on_any
registered_any [] h = sym (append_nothing h.any)
registered_any (for_any cb ∷ rs) h =
    registered_any rs (on_any cb h) ∙ append_one h.any cb (among_any rs)
registered_any (for_type t cb ∷ rs) h = registered_any rs (on t cb h)

registered_typed :
    (t : EventType) (rs : List Registration) (h : Handlers)
    → (foldl register h rs).by_type t ≡ h.by_type t ++ among_typed t rs
unfolding register on on_any
registered_typed t [] h = sym (append_nothing (h.by_type t))
registered_typed t (for_any cb ∷ rs) h = registered_typed t rs (on_any cb h)
registered_typed t (for_type u cb ∷ rs) h = elim (Bool-cases (same_type u t)) [
  | inl hit ↦
      rw hit (
        registered_typed t rs (on u cb h) ∙ rw hit (append_one (h.by_type t) cb (among_typed t rs)))
  | inr miss ↦ rw miss (registered_typed t rs (on u cb h) ∙ rw miss)
]

or_false : (b : Bool) → (b || false) ≡ b
or_false b = ground arith

module _ {ℓ} {W : Type ℓ} (p : Program W) where
  call_each-foldl :
      (cbs : List ℕ) (ev : Event) (s : Shared W)
      → call_each p cbs ev s ≡ foldl (λ t cb. call_one p cb ev t) s cbs
  unfolding call_each
  call_each-foldl [] ev s = refl
  call_each-foldl (cb ∷ cbs) ev s = call_each-foldl cbs ev (call_one p cb ev s)

  -- An event reaches the callbacks registered for every event and then those of its type, each
  -- group in the order of registration, whatever was registered in between.
  pub emit-order :
      (rs : List Registration) (ev : Event) (s : Shared W)
      → p.handlers ≡ foldl register no_handlers rs
      → emit p ev s
        ≡ foldl
            (λ t cb. call_one p cb ev t)
            (foldl (λ t cb. call_one p cb ev t) s (among_any rs))
            (among_typed ev.type rs)
  unfolding emit
  emit-order rs ev s h =
      ap (λ cbs. call_each p cbs ev (call_each p p.handlers.any ev s))
        (ap (λ (hs : Handlers). hs.by_type ev.type) h ∙ registered_typed ev.type rs no_handlers)
      ∙ ap (λ cbs. call_each p (among_typed ev.type rs) ev (call_each p cbs ev s))
          (ap (λ (hs : Handlers). hs.any) h ∙ registered_any rs no_handlers)
      ∙ call_each-foldl (among_typed ev.type rs) ev _
      ∙ ap (λ t. foldl (λ u cb. call_one p cb ev u) t (among_typed ev.type rs))
          (call_each-foldl (among_any rs) ev s)

  call_each-ended :
      (cbs : List ℕ) (ev : Event) (s : Shared W) → (call_each p cbs ev s).live_ended ≡ s.live_ended
  unfolding call_each
  call_each-ended [] ev s = refl
  call_each-ended (cb ∷ cbs) ev s = call_each-ended cbs ev (call_one p cb ev s)

  emit-ended : (ev : Event) (s : Shared W) → (emit p ev s).live_ended ≡ s.live_ended
  unfolding emit
  emit-ended ev s = call_each-ended _ ev _ ∙ call_each-ended _ ev s

  -- The message reads as a `LiveEnd`.
  abbrev pub ends : Message → Bool
  ends m = same_type (event_of p m).type live_end

  deliver-ended :
      (m : Message) (s : Shared W)
      → ((deliver p m s).1 ≡ ends m) × ((deliver p m s).0.live_ended ≡ (ends m || s.live_ended))
  unfolding deliver
  deliver-ended m s = elim (Bool-cases (ends m)) [
    | inl e ↦ rw e (refl, refl)
    | inr e ↦ rw e (refl, emit-ended _ _)
  ]

  deliver_all-ended :
      (ms : List Message) (s : Shared W) (ended : Bool)
      → ((deliver_all p ms (s, ended)).1 ≡ (any ends ms || ended))
        × ((deliver_all p ms (s, ended)).0.live_ended ≡ (any ends ms || s.live_ended))
  unfolding deliver_all
  deliver_all-ended [] s ended = (refl, refl)
  deliver_all-ended (m ∷ ms) s ended =
      let ih = deliver_all-ended ms (deliver p m s).0 ((deliver p m s).1 || ended) in
      let one = deliver-ended m s in (ground (arith, ih.0, one.0), ground (arith, ih.1, one.1))

  -- A batch answers that the LIVE has ended exactly if one of the messages that it delivers reads as
  -- a `LiveEnd`, and then sets the flag `live_ended`, which it never clears.
  pub process_fetch_result-ended :
      (ms : List Message) (cl : Client W) (h : List ℤ)
      → HasSeen h cl
      → ((process_fetch_result p ms cl).1 ≡ any ends (fresh h ms))
        × ((process_fetch_result p ms cl).0.shared.live_ended
            ≡ (any ends (fresh h ms) || cl.shared.live_ended))
  process_fetch_result-ended ms cl h seen =
      let same = process_fetch_result-fresh p ms cl h seen in
      let ended = deliver_all-ended (fresh h ms) cl.shared false in
      (
        ap (λ (r : Shared W × Bool). r.1) same ∙ ended.0 ∙ or_false (any ends (fresh h ms)),
        ap (λ (r : Shared W × Bool). r.0.live_ended) same ∙ ended.1,
      )
