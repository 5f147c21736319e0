-- ===== src/Live/Parser.antt =====
-- src/event_parser.cpp: from a Webcast message to a public event. The classes that protoc makes of
-- proto/tiktok.proto are a parameter: a record of the parse functions, with the fields that are
-- read of each message.
pub mod Laws
mod Tests
use ttlive_cpp.Prelude.{
  ℕ, List, [], ◌∷◌, Bool, true, false, ◌||◌, not, Option, none, some, codes, if◌then◌else◌,
}
use ttlive_cpp.Prelude.Int.{ℤ, pos, same_int}
use ttlive_cpp.Js.Text.{Text, same}
use ttlive_cpp.Live.Event.{
  EventType, comment, gift, like, join, follow, share, subscribe, room_user_seq, control, live_end,
  unknown, Event, User,
}

-- `ImageModel`, of which the list of addresses is read.
pub record Image : Type 0 where
  pub url_list : List Text

-- `tiktok::User`; `none` is an image that is not set.
pub record UserMessage : Type 0 where
  pub id : ℤ
  pub display_id : Text
  pub nickname : Text
  pub verified : Bool
  pub avatar_thumb : Option Image
  pub avatar_medium : Option Image

pub record Chat : Type 0 where
  pub user : UserMessage
  pub content : Text

pub record GiftStruct : Type 0 where
  pub name : Text
  pub diamond_count : ℤ
  pub type : ℤ
  pub image : Option Image
  pub icon : Option Image

pub record Gift : Type 0 where
  pub user : UserMessage
  pub gift_id : ℤ
  pub repeat_count : ℤ
  pub repeat_end : ℤ
  pub gift : Option GiftStruct

pub record Like : Type 0 where
  pub user : UserMessage
  pub count : ℤ
  pub total : ℤ

pub record Member : Type 0 where
  pub user : UserMessage
  pub member_count : ℤ

pub record Social : Type 0 where
  pub user : UserMessage
  pub action : ℤ
  pub share_type : ℤ
  pub follow_count : ℤ

pub record RoomUserSeq : Type 0 where
  pub total : ℤ

pub record SubNotify : Type 0 where
  pub user : UserMessage

pub record Control : Type 0 where
  pub action : ℤ

-- `ParseFromString` of each class.
pub record Classes : Type 0 where
  pub chat : List ℕ → Option Chat
  pub gift : List ℕ → Option Gift
  pub like : List ℕ → Option Like
  pub member : List ℕ → Option Member
  pub social : List ℕ → Option Social
  pub room_user_seq : List ℕ → Option RoomUserSeq
  pub sub_notify : List ℕ → Option SubNotify
  pub control : List ℕ → Option Control

-- The first address of an image that is set and has one.
abbrev pub first_url : Option Image → Option Text
first_url none = none
first_url (some i) = elim i.url_list [ [] ↦ none | u ∷ us ↦ some u ]

-- The first of two images that has an address, or the text that was there.
abbrev pub pick_url : Option Text → Option Text → Text → Text
pick_url (some u) second old = u
pick_url none (some u) old = u
pick_url none none old = old

unfoldable pub fill_user : UserMessage → User → User
fill_user u out = record out {
  id = u.id;
  unique_id = u.display_id;
  nickname = u.nickname;
  verified = u.verified;
  avatar_url = pick_url (first_url u.avatar_thumb) (first_url u.avatar_medium) out.avatar_url;
}

unfoldable pub fill_chat : Chat → Event → Event
unfolding fill_user
fill_chat m out = record out {
  type = comment;
  user = fill_user m.user out.user;
  comment = m.content;
}

-- `if (m.has_gift())`
unfoldable pub fill_gift_struct : Option GiftStruct → Event → Event
fill_gift_struct none out = out
fill_gift_struct (some g) out = record out {
  gift_name = g.name;
  diamond_count = g.diamond_count;
  gift_type = g.type;
  gift_icon_url = pick_url (first_url g.image) (first_url g.icon) out.gift_icon_url;
}

unfoldable pub fill_gift : Gift → Event → Event
unfolding fill_user fill_gift_struct
fill_gift m out = fill_gift_struct m.gift (record out {
  type = gift;
  user = fill_user m.user out.user;
  gift_id = m.gift_id;
  repeat_count = m.repeat_count;
  gift_streaking = same_int m.repeat_end (pos 0);
})

unfoldable pub fill_like : Like → Event → Event
unfolding fill_user
fill_like m out = record out {
  type = like;
  user = fill_user m.user out.user;
  like_count = m.count;
  total_likes = m.total;
}

unfoldable pub fill_member : Member → Event → Event
unfolding fill_user
fill_member m out = record out {
  type = join;
  user = fill_user m.user out.user;
  member_count = m.member_count;
}

unfoldable pub fill_social : Social → Event → Event
unfolding fill_user
fill_social m out = record out {
  user = fill_user m.user out.user;
  type = if same_int m.action (pos 3) || not (same_int m.share_type (pos 0)) then share else follow;
  member_count = m.follow_count;
}

unfoldable pub fill_room_user_seq : RoomUserSeq → Event → Event
fill_room_user_seq m out = record out { type = room_user_seq; viewer_count = m.total }

unfoldable pub fill_sub_notify : SubNotify → Event → Event
unfolding fill_user
fill_sub_notify m out = record out { type = subscribe; user = fill_user m.user out.user }

unfoldable pub fill_control : Control → Event → Event
fill_control m out = record out {
  control_action = m.action;
  type = if same_int m.action (pos 3) || same_int m.action (pos 4) then live_end else control;
}

-- One branch: a message that does not parse falls through to the end of the function.
abbrev pub parsed : {M : Type 0} → Option M → (M → Event → Event) → Event → Bool × Event
parsed (some m) fill out = (true, fill m out)
parsed none fill out = (false, record out { type = unknown })

unfoldable pub parse_event : Classes → Text → List ℕ → Event → Bool × Event
parse_event c method payload out =
    let out = record out { method = method; raw_payload = payload } in
    if same method (codes "WebcastChatMessage")
    then parsed (c.chat payload) fill_chat out
    else if same method (codes "WebcastGiftMessage")
    then parsed (c.gift payload) fill_gift out
    else if same method (codes "WebcastLikeMessage")
    then parsed (c.like payload) fill_like out
    else if same method (codes "WebcastMemberMessage")
    then parsed (c.member payload) fill_member out
    else if same method (codes "WebcastSocialMessage")
    then parsed (c.social payload) fill_social out
    else if same method (codes "WebcastRoomUserSeqMessage")
    then parsed (c.room_user_seq payload) fill_room_user_seq out
    else if same method (codes "WebcastSubNotifyMessage")
    then parsed (c.sub_notify payload) fill_sub_notify out
    else if same method (codes "WebcastControlMessage")
    then parsed (c.control payload) fill_control out
    else (false, record out { type = unknown })
