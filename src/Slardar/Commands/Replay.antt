-- ===== src/Slardar/Commands/Replay.antt =====
-- The commands that wait are called when their method is provided; one with a dotted path never is.
use ttlive_cpp.Prelude.{
  ℕ, ◌≡◌, ◌≢◌, refl, sym, ap, ◌∙◌, Bool, false, List, [], ◌∷◌, ◌++◌, Option, none, some, if_true,
  if_false,
}
use mathlib.Core.List.{append_assoc, append-nil, nil≢cons}
use ttlive_cpp.Js.Text.{Text, same, same_refl, before}
use ttlive_cpp.Js.Object.{own, put, own-put}
use ttlive_cpp.Slardar.Util.{includes}
use ttlive_cpp.Slardar.Client.{reserved}
use ttlive_cpp.Slardar.Commands.{
  method, Call, Command, Front, find, split, note, call_directly, waiting, keep_command, is_there,
  command_at, command, replay_one, unless_thrown, replay, emptied, replay_waiting, provide,
}

module _ {ℓ} {A C : Type ℓ} where
  command-at :
      (n : Text) (context : C) (args : List A) (s : Front A C)
      → n ≢ []
      → command n context args s ≡ command_at (before b'.' n) n context args s
  unfolding command
  command-at [] context args s h = elim (h refl) [ ]
  command-at (c ∷ n) context args s h = refl

  -- Commands with one path, each with its context.
  unfoldable pub command_all : Text → List (C × List A) → Front A C → Front A C
  command_all n [] s = s
  command_all n ((context, args) ∷ cs) s = command_all n cs (command n context args s)

  abbrev commands : Text → List (C × List A) → List (Command A C)
  commands n [] = []
  commands n ((context, args) ∷ cs) =
      record { context = context; path = n; args = args } ∷ commands n cs

  -- The calls that they stand for.
  abbrev pub calls_of : ℕ → List C → List (C × List A) → List (Call A C)
  calls_of f contexts [] = []
  calls_of f contexts ((context, args) ∷ cs) =
      record { callee = f; args = args; contexts = contexts ++ (context ∷ []) }
      ∷ calls_of f contexts cs

  module _ (throws : ℕ → List A → Bool) (f : ℕ) (fine : (args : List A) → throws f args ≡ false)
      (n : Text) where
    replay_one-calls :
        (context : C) (args : List A) (s : Front A C)
        → own n s.client ≡ some (method f)
        → replay_one throws (record { context = context; path = n; args = args }) s
          ≡ (record s { calls = s.calls ++ calls_of f s.contexts ((context, args) ∷ []) }, false)
    unfolding replay_one note
    replay_one-calls context args s there = rw there (rw (fine args) refl)

    replay-calls :
        (cs : List (C × List A)) (s : Front A C)
        → own n s.client ≡ some (method f)
        → replay throws (commands n cs) s
          ≡ (record s { calls = s.calls ++ calls_of f s.contexts cs }, false)
    unfolding replay
    replay-calls [] s there = rw (append-nil s.calls) refl
    replay-calls ((context, args) ∷ cs) s there =
        let one = calls_of f s.contexts ((context, args) ∷ []) in
        ap (λ r. unless_thrown throws r (replay throws (commands n cs)))
          (replay_one-calls context args s there)
        ∙ replay-calls cs (record s { calls = s.calls ++ one }) there
        ∙ ap {B = Front A C × Bool} (λ l. (record s { calls = l }, false))
            (append_assoc s.calls one (calls_of f s.contexts cs))

  -- What the commands before the provision leave.
  pub record IsKept (s t : Front A C) (r : Text) (waits : List (Command A C)) : Type ℓ where
    pub front : t.front ≡ s.front
    pub client : t.client ≡ s.client
    pub contexts : t.contexts ≡ s.contexts
    pub calls : t.calls ≡ s.calls
    pub queued : waiting (own r t.queue) ≡ waits

  module _ (s : Front A C) (n : Text) (named : n ≢ [])
      (not_there : is_there (before b'.' n) s.front ≡ false) where
    pub command-IsKept :
        (context : C) (args : List A) (t : Front A C) (waits : List (Command A C))
        → IsKept s t (before b'.' n) waits
        → IsKept s
            (command n context args t)
            (before b'.' n)
            (waits ++ (record { context = context; path = n; args = args } ∷ []))
    unfolding keep_command
    command-IsKept context args t waits k =
        let r = before b'.' n in
        let c : Command A C = record { context = context; path = n; args = args } in
        let now : command n context args t ≡ keep_command r c t =
          command-at n context args t named
          ∙ if_false (call_directly (find t.front (split n)) args t)
              (ap (is_there r) k.front ∙ not_there) in
        rw now (record {
          front = k.front;
          client = k.client;
          contexts = k.contexts;
          calls = k.calls;
          queued =
              ap waiting (
                own-put r r (waiting (own r t.queue) ++ (c ∷ [])) t.queue ∙ if_true _ (same_refl r))
              ∙ ap (λ w. w ++ (c ∷ [])) k.queued;
        })

    command_all-IsKept :
        (cs : List (C × List A)) (t : Front A C) (waits : List (Command A C))
        → IsKept s t (before b'.' n) waits
        → IsKept s (command_all n cs t) (before b'.' n) (waits ++ commands n cs)
    unfolding command_all
    command_all-IsKept [] t waits k = rw (append-nil waits) k
    command_all-IsKept ((context, args) ∷ cs) t waits k =
        let c : Command A C = record { context = context; path = n; args = args } in
        rw (sym (append_assoc waits (c ∷ []) (commands n cs))) (
          command_all-IsKept cs (command n context args t) (waits ++ (c ∷ []))
            (command-IsKept context args t waits k))

  module _ (throws : ℕ → List A → Bool) (f : ℕ) (fine : (args : List A) → throws f args ≡ false)
      (n : Text) where
    -- The waiting commands were called, nothing else changed, and none waits any more.
    IsReplayed : List (C × List A) → Front A C → Front A C → Type ℓ
    IsReplayed cs s t =
        (t.calls ≡ s.calls ++ calls_of f s.contexts cs)
        × (t.contexts ≡ s.contexts)
        × (waiting (own n t.queue) ≡ [])

    emptied-IsReplayed :
        (cs : List (C × List A)) (s : Front A C)
        → own n s.client ≡ some (method f)
        → IsReplayed cs s (emptied throws n (replay throws (commands n cs) s))
    unfolding IsReplayed
    emptied-IsReplayed cs s there =
        rw (replay-calls throws f fine n cs s there)
          (refl, refl, ap waiting (own-put n n [] s.queue ∙ if_true _ (same_refl n)))

    replay_waiting-IsReplayed :
        (cs : List (C × List A)) (o : Option (List (Command A C))) (s : Front A C)
        → own n s.client ≡ some (method f)
        → own n s.queue ≡ o
        → waiting o ≡ commands n cs
        → IsReplayed cs s (replay_waiting throws n o s)
    unfolding IsReplayed
    replay_waiting-IsReplayed [] none s there here e =
        (sym (append-nil s.calls), refl, ap waiting here)
    replay_waiting-IsReplayed (c ∷ cs) none s there here e = absurd (nil≢cons e)
    replay_waiting-IsReplayed cs (some ws) s there here e = rw e (emptied-IsReplayed cs s there)

    -- A name without a dot that the front has not, and that no commands wait for, is commanded any
    -- number of times and then provided, as a function that does not throw and under a name that is
    -- not reserved: the function is then called once for each command, in order, with its arguments and
    -- with the context of its moment on the reports, which no report has afterwards, and none waits.
    pub provide-calls :
        (cs : List (C × List A)) (s : Front A C)
        → n ≢ []
        → before b'.' n ≡ n
        → is_there n s.front ≡ false
        → includes same reserved n ≡ false
        → waiting (own n s.queue) ≡ []
        → ((provide throws n (method f) (command_all n cs s)).calls
            ≡ s.calls ++ calls_of f s.contexts cs)
          × ((provide throws n (method f) (command_all n cs s)).contexts ≡ s.contexts)
          × (waiting (own n (provide throws n (method f) (command_all n cs s)).queue) ≡ [])
    unfolding provide IsReplayed
    provide-calls cs s named plain absent free idle =
        let t = command_all n cs s in
        let k = command_all-IsKept s n named (rw plain absent) cs s [] (record {
          front = refl;
          client = refl;
          contexts = refl;
          calls = refl;
          queued = rw plain idle;
        }) in
        let t1 = record t {
          front = put n (method f) t.front;
          client = put n (method f) t.client;
        } in
        let w : waiting (own n t.queue) ≡ commands n cs =
          ap (λ r. waiting (own r t.queue)) (sym plain) ∙ k.queued in
        let r =
          replay_waiting-IsReplayed cs (own n t.queue) t1
            (own-put n n (method f) t.client ∙ if_true _ (same_refl n)) refl w in
        let now : provide throws n (method f) t ≡ replay_waiting throws n (own n t.queue) t1 =
          if_false _ free in
        rw now (
          r.0
              ∙ ap (λ l. l ++ calls_of f t.contexts cs) k.calls
              ∙ ap (λ c. s.calls ++ calls_of f c cs) k.contexts,
          r.1 ∙ k.contexts,
          r.2,
        )
