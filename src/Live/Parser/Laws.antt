-- ===== src/Live/Parser/Laws.antt =====
-- What `parse_event` answers, and when an event ends the LIVE.
use ttlive_cpp.Prelude.{
  ℕ, ◌≡◌, ◌≢◌, refl, ◌↔◌, ◌⊎◌, List, Bool, true, false, Option, none, some, codes, arith, if_has,
  All, ◌∷◌, [],
}
use ttlive_cpp.Prelude.Int.{ℤ, pos, same_int_iff}
use ttlive_cpp.Js.Text.{Text, same, same_iff}
use ttlive_cpp.Live.Event.{live_end, unknown, Event}
use ttlive_cpp.Live.Parser.{
  Classes, Control, GiftStruct, Gift, Social, parsed, parse_event, fill_chat, fill_gift,
  fill_gift_struct, fill_like, fill_member, fill_social, fill_room_user_seq, fill_sub_notify,
  fill_control,
}

-- The event of a message that is not understood.
abbrev pub unrecognised : Text → List ℕ → Event → Event
unrecognised method payload out = record out {
  method = method;
  raw_payload = payload;
  type = unknown;
}

-- What holds of a result of `parsed`, in the form of the theorem below.
abbrev pub Kept : Text → List ℕ → Event → Bool × Event → Type 0
Kept method payload out (false, ev) = ev ≡ unrecognised method payload out
Kept method payload out (true, ev) =
    (ev.method ≡ method)
    × (ev.raw_payload ≡ payload)
    × (ev.msg_id ≡ out.msg_id)
    × (ev.stream ≡ out.stream)
    × (ev.room_id ≡ out.room_id)

parsed-Kept :
    {M : Type 0} (o : Option M) (fill : M → Event → Event) (method : Text) (payload : List ℕ)
    (out : Event)
    → ((m : M)
        → Kept method payload out
            (true, fill m (record out { method = method; raw_payload = payload })))
    → Kept method payload out
        (parsed o fill (record out { method = method; raw_payload = payload }))
parsed-Kept none fill method payload out h = refl
parsed-Kept (some m) fill method payload out h = h m

gift-Kept :
    (g : Option GiftStruct) (ev : Event)
    → Kept ev.method ev.raw_payload ev (true, fill_gift_struct g ev)
unfolding fill_gift_struct
gift-Kept none ev = (refl, refl, refl, refl, refl)
gift-Kept (some g) ev = (refl, refl, refl, refl, refl)

abbrev with_message : Text → List ℕ → Event → Event
with_message method payload out = record out { method = method; raw_payload = payload }

-- A property of what `parse_event` answers is one of each of its branches.
branches :
    (P : Bool × Event → Type 0) (c : Classes) (method : Text) (payload : List ℕ) (out : Event)
    → (same method (codes "WebcastChatMessage") ≡ true
        → P (parsed (c.chat payload) fill_chat (with_message method payload out)))
    → (same method (codes "WebcastGiftMessage") ≡ true
        → P (parsed (c.gift payload) fill_gift (with_message method payload out)))
    → (same method (codes "WebcastLikeMessage") ≡ true
        → P (parsed (c.like payload) fill_like (with_message method payload out)))
    → (same method (codes "WebcastMemberMessage") ≡ true
        → P (parsed (c.member payload) fill_member (with_message method payload out)))
    → (same method (codes "WebcastSocialMessage") ≡ true
        → P (parsed (c.social payload) fill_social (with_message method payload out)))
    → (same method (codes "WebcastRoomUserSeqMessage") ≡ true
        → P (parsed (c.room_user_seq payload) fill_room_user_seq (with_message method payload out)))
    → (same method (codes "WebcastSubNotifyMessage") ≡ true
        → P (parsed (c.sub_notify payload) fill_sub_notify (with_message method payload out)))
    → (same method (codes "WebcastControlMessage") ≡ true
        → P (parsed (c.control payload) fill_control (with_message method payload out)))
    → (same method (codes "WebcastControlMessage") ≡ false
        → P (false, unrecognised method payload out))
    → P (parse_event c method payload out)
unfolding parse_event
branches P c method payload out is_chat is_gift is_like is_member is_social is_seq is_sub is_control
      rest =
    if_has P _ is_chat λ _. if_has P _ is_gift λ _. if_has P _ is_like λ _.
      if_has P _ is_member λ _.
        if_has P _ is_social
          λ _. if_has P _ is_seq λ _. if_has P _ is_sub λ _. if_has P _ is_control rest

-- Whatever the message, the event carries its method, its bytes and the id given before; a message
-- that is not recognised or does not parse changes nothing else than the type, which is `Unknown`.
pub parse_event-Kept :
    (c : Classes) (method : Text) (payload : List ℕ) (out : Event)
    → Kept method payload out (parse_event c method payload out)
unfolding fill_chat fill_gift fill_like fill_member fill_social fill_room_user_seq fill_sub_notify
    fill_control
parse_event-Kept c method payload out =
    branches (Kept method payload out) c method payload out
      (λ _.
        parsed-Kept (c.chat payload) fill_chat method payload out
          (λ m. (refl, refl, refl, refl, refl)))
      (λ _. parsed-Kept (c.gift payload) fill_gift method payload out (λ m. gift-Kept m.gift _))
      (λ _.
        parsed-Kept (c.like payload) fill_like method payload out
          (λ m. (refl, refl, refl, refl, refl)))
      (λ _.
        parsed-Kept (c.member payload) fill_member method payload out
          (λ m. (refl, refl, refl, refl, refl)))
      (λ _.
        parsed-Kept (c.social payload) fill_social method payload out
          (λ m. (refl, refl, refl, refl, refl)))
      (λ _.
        parsed-Kept (c.room_user_seq payload) fill_room_user_seq method payload out
          (λ m. (refl, refl, refl, refl, refl)))
      (λ _.
        parsed-Kept (c.sub_notify payload) fill_sub_notify method payload out
          (λ m. (refl, refl, refl, refl, refl)))
      (λ _.
        parsed-Kept (c.control payload) fill_control method payload out
          (λ m. (refl, refl, refl, refl, refl)))
      (λ _. refl)

-- A message that does not end the LIVE has another type.
parsed-other :
    {M : Type 0} (o : Option M) (fill : M → Event → Event) (out : Event)
    → ((m : M) → (fill m out).type ≢ live_end)
    → (parsed o fill out).1.type ≢ live_end
parsed-other none fill out h = ground arith
parsed-other (some m) fill out h = h m

-- The action of a control message that ends the LIVE.
abbrev pub Ends : ℤ → Type 0
Ends action = (action ≡ pos 3) ⊎ (action ≡ pos 4)

abbrev control_name : Text
control_name = codes "WebcastControlMessage"

control_type : (m : Control) (out : Event) → ((fill_control m out).type ≡ live_end) ↔ Ends m.action
unfolding fill_control
control_type m out = ground (arith, same_int_iff m.action (pos 3), same_int_iff m.action (pos 4))

parsed-control :
    (o : Option Control) (out : Event)
    → (parsed o fill_control out).1.type ≡ live_end
    → (m : Control) × (o ≡ some m) × Ends m.action
parsed-control none out e = absurd (ground arith)
parsed-control (some m) out e = (m, refl, (control_type m out).0 e)

control-parsed :
    (o : Option Control) (m : Control) (out : Event)
    → o ≡ some m
    → Ends m.action
    → (parsed o fill_control out).1.type ≡ live_end
control-parsed o m out e h = rw e ((control_type m out).1 h)

gift_type : (g : Option GiftStruct) (ev : Event) → (fill_gift_struct g ev).type ≡ ev.type
unfolding fill_gift_struct
gift_type none ev = refl
gift_type (some g) ev = refl

social_type : (m : Social) (ev : Event) → (fill_social m ev).type ≢ live_end
unfolding fill_social
social_type m ev = ground arith

others_apart :
    All
      (λ a. same control_name a ≡ false)
      (codes "WebcastChatMessage"
        ∷ codes "WebcastGiftMessage"
        ∷ codes "WebcastLikeMessage"
        ∷ codes "WebcastMemberMessage"
        ∷ codes "WebcastSocialMessage"
        ∷ codes "WebcastRoomUserSeqMessage"
        ∷ codes "WebcastSubNotifyMessage"
        ∷ [])
unfolding same
others_apart = (refl, (refl, (refl, (refl, (refl, (refl, (refl, tt)))))))

clash :
    (a method : Text)
    → same control_name a ≡ false
    → method ≡ control_name
    → same method a ≡ true
    → ⊥
clash a method apart e hit = ground (arith, same_iff method a, same_iff control_name a)

gift_other : (m : Gift) (ev : Event) → (fill_gift m ev).type ≢ live_end
unfolding fill_gift
gift_other m ev = ground (arith, gift_type m.gift _)

-- The message that ends the LIVE: a control message that parses, with one of the two actions.
abbrev pub LiveEnding : Classes → Text → List ℕ → Type 0
LiveEnding c method payload =
    (method ≡ codes "WebcastControlMessage")
    × ((m : Control) × (c.control payload ≡ some m) × Ends m.action)

-- An event of type `LiveEnd` comes out exactly for a control message that parses and has the action
-- 3 (ended) or 4 (suspended).
pub parse_event-live_end :
    (c : Classes) (method : Text) (payload : List ℕ) (out : Event)
    → ((parse_event c method payload out).1.type ≡ live_end) ↔ LiveEnding c method payload
unfolding fill_chat fill_gift fill_like fill_member fill_room_user_seq fill_sub_notify
parse_event-live_end c method payload out = (
  branches (λ r. r.1.type ≡ live_end → LiveEnding c method payload) c method payload out
      (λ _ e. absurd (parsed-other (c.chat payload) fill_chat _ (λ m. ground arith) e))
      (λ _ e. absurd (
        parsed-other (c.gift payload) fill_gift _
          (λ m. gift_other m (with_message method payload out)) e))
      (λ _ e. absurd (parsed-other (c.like payload) fill_like _ (λ m. ground arith) e))
      (λ _ e. absurd (parsed-other (c.member payload) fill_member _ (λ m. ground arith) e))
      (λ _ e. absurd (
        parsed-other (c.social payload) fill_social _
          (λ m. social_type m (with_message method payload out)) e))
      (λ _ e.
        absurd (parsed-other (c.room_user_seq payload) fill_room_user_seq _ (λ m. ground arith) e))
      (λ _ e. absurd (parsed-other (c.sub_notify payload) fill_sub_notify _ (λ m. ground arith) e))
      (λ hit e. ((same_iff method control_name).0 hit, parsed-control (c.control payload) _ e))
      (λ _ e. absurd (ground arith)),
  λ (is_control, (m, parses, ends)).
      branches (λ r. r.1.type ≡ live_end) c method payload out
        (λ hit. absurd (clash (codes "WebcastChatMessage") method others_apart.0 is_control hit))
        (λ hit. absurd (clash (codes "WebcastGiftMessage") method others_apart.1.0 is_control hit))
        (λ hit.
          absurd (clash (codes "WebcastLikeMessage") method others_apart.1.1.0 is_control hit))
        (λ hit.
          absurd (clash (codes "WebcastMemberMessage") method others_apart.1.1.1.0 is_control hit))
        (λ hit.
          absurd
            (clash (codes "WebcastSocialMessage") method others_apart.1.1.1.1.0 is_control hit))
        (λ hit. absurd (
          clash (codes "WebcastRoomUserSeqMessage") method others_apart.1.1.1.1.1.0 is_control hit))
        (λ hit. absurd (
          clash (codes "WebcastSubNotifyMessage") method others_apart.1.1.1.1.1.1.0 is_control hit))
        (λ _. control-parsed (c.control payload) m _ parses ends)
        (λ miss. absurd (ground (arith, same_iff method control_name))),
)
