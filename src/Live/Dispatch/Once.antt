-- ===== src/Live/Dispatch/Once.antt =====
-- Which messages are delivered: those whose id is none of the last 500000 delivered ones, and with
-- two transports each one once.
use ttlive_cpp.Prelude.{
  ◌≡◌, refl, sym, ap, ◌∙◌, inl, inr, Bool, true, false, ◌||◌, List, [], ◌∷◌, ◌++◌, if◌then◌else◌,
  Bool-cases,
}
use ttlive_cpp.Prelude.Int.{ℤ, pos, same_int}
use ttlive_cpp.Live.Seen.{contains, remember_id}
use ttlive_cpp.Live.Seen.Window.{IsSeen, remember_id-IsSeen, recent, remember_id-recent}
use ttlive_cpp.Live.Dispatch.{
  Message, Shared, Client, Program, deliver, dispatch_message, process_messages,
  process_fetch_result,
}

-- The messages to deliver after a history `h` of delivered ids: those without an id, and those whose
-- id is not among the last 500000 of the history.
unfoldable pub fresh : List ℤ → List Message → List Message
fresh h [] = []
fresh h (m ∷ ms) =
    let untracked = m ∷ fresh h ms in
    let dropped = fresh h ms in
    let tracked = m ∷ fresh (h ++ (m.msg_id ∷ [])) ms in
    if same_int m.msg_id (pos 0)
    then untracked
    else if contains m.msg_id (recent h)
    then dropped
    else tracked

-- The client has delivered the history `h`.
abbrev pub HasSeen {ℓ} : {W : Type ℓ} → List ℤ → Client W → Type 0
HasSeen h cl = IsSeen cl.seen × (cl.seen.order ≡ recent h)

-- What a batch leaves behind besides the ids, and what it answers.
abbrev pub outcome {ℓ} : {W : Type ℓ} → Client W × Bool → Shared W × Bool
outcome (cl, ended) = (cl.shared, ended)

module _ {ℓ} {W : Type ℓ} (p : Program W) where
  -- The delivery of messages one after the other, with no look at their ids; the flag tells whether
  -- one of them has ended the LIVE.
  unfoldable pub deliver_all : List Message → Shared W × Bool → Shared W × Bool
  deliver_all [] r = r
  deliver_all (m ∷ ms) (s, ended) =
      let (t, ends) = deliver p m s in deliver_all ms (t, ends || ended)

  dispatch-untracked :
      (m : Message) (cl : Client W)
      → same_int m.msg_id (pos 0) ≡ true
      → dispatch_message p m cl
        ≡ (record cl { shared = (deliver p m cl.shared).0 }, (deliver p m cl.shared).1)
  unfolding dispatch_message
  dispatch-untracked m cl h = rw h

  dispatch-old :
      (m : Message) (cl : Client W)
      → same_int m.msg_id (pos 0) ≡ false
      → contains m.msg_id cl.seen.ids ≡ true
      → dispatch_message p m cl ≡ (cl, false)
  unfolding dispatch_message
  dispatch-old m cl h old = rw (h, old)

  dispatch-new :
      (m : Message) (cl : Client W)
      → same_int m.msg_id (pos 0) ≡ false
      → contains m.msg_id cl.seen.ids ≡ false
      → dispatch_message p m cl ≡ (
        record { seen = remember_id m.msg_id cl.seen; shared = (deliver p m cl.shared).0 },
        (deliver p m cl.shared).1,
      )
  unfolding dispatch_message
  dispatch-new m cl h new = rw (h, new)

  known :
      (h : List ℤ) (cl : Client W)
      → HasSeen h cl
      → (id : ℤ) → contains id (recent h) ≡ contains id cl.seen.ids
  known h cl (seen, order) id = ap (contains id) (sym order) ∙ sym (seen.0 id)

  after :
      (m : Message) (ms : List Message) (ended : Bool) (cl : Client W) (r : Client W × Bool)
      → dispatch_message p m cl ≡ r
      → outcome (process_messages p (m ∷ ms) ended cl)
        ≡ outcome (process_messages p ms (r.1 || ended) r.0)
  unfolding process_messages
  after m ms ended cl r e =
      ap (λ (r : Client W × Bool). outcome (process_messages p ms (r.1 || ended) r.0)) e

  process_messages-fresh :
      (ms : List Message) (ended : Bool) (cl : Client W) (h : List ℤ)
      → HasSeen h cl
      → outcome (process_messages p ms ended cl) ≡ deliver_all (fresh h ms) (cl.shared, ended)
  unfolding fresh deliver_all
  process_messages-fresh [] ended cl h seen = unfold process_messages in refl
  process_messages-fresh (m ∷ ms) ended cl h (seen, order) =
      elim (Bool-cases (same_int m.msg_id (pos 0))) [
        | inl untracked ↦ rw untracked (
            after m ms ended cl _ (dispatch-untracked m cl untracked)
            ∙ process_messages-fresh ms _ _ h (seen, order))
        | inr tracked ↦ elim (Bool-cases (contains m.msg_id cl.seen.ids)) [
          | inl old ↦
              rw (tracked, known h cl (seen, order) m.msg_id, old)
                (after m ms ended cl _ (dispatch-old m cl tracked old)
                  ∙ process_messages-fresh ms _ _ h (seen, order))
          | inr new ↦
              rw (tracked, known h cl (seen, order) m.msg_id, new)
                (after m ms ended cl _ (dispatch-new m cl tracked new)
                  ∙ process_messages-fresh ms _ _ (h ++ (m.msg_id ∷ [])) (
                    remember_id-IsSeen m.msg_id cl.seen new seen,
                    remember_id-recent m.msg_id cl.seen h order,
                  ))
        ]
      ]

  -- A batch is delivered as if the messages whose id is among the last 500000 delivered ids were
  -- not in it, and the answer is that of the others.
  pub process_fetch_result-fresh :
      (ms : List Message) (cl : Client W) (h : List ℤ)
      → HasSeen h cl
      → outcome (process_fetch_result p ms cl) ≡ deliver_all (fresh h ms) (cl.shared, false)
  unfolding process_fetch_result
  process_fetch_result-fresh ms cl h seen = process_messages-fresh ms false cl h seen
