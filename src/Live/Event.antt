-- ===== src/Live/Event.antt =====
-- The public event types of include/ttlive/events.hpp, and `to_string` of src/client.cpp. A text is
-- a list of bytes; a field that the constructor leaves alone has its default.
use ttlive_cpp.Prelude.{ℕ, List, [], ◌∷◌, Bool, true, false, codes, if◌then◌else◌, not, ◌&&◌, ◌==◌}
use ttlive_cpp.Prelude.Int.{ℤ, pos}
use ttlive_cpp.Js.Text.{Text, same}

pub data EventType : Type 0 where
  connect disconnect comment gift like join follow share subscribe room_user_seq control live_end
        unknown :
      EventType

unfoldable pub to_string : EventType → Text
to_string connect = codes "Connect"
to_string disconnect = codes "Disconnect"
to_string comment = codes "Comment"
to_string gift = codes "Gift"
to_string like = codes "Like"
to_string join = codes "Join"
to_string follow = codes "Follow"
to_string share = codes "Share"
to_string subscribe = codes "Subscribe"
to_string room_user_seq = codes "RoomUserSeq"
to_string control = codes "Control"
to_string live_end = codes "LiveEnd"
to_string unknown = codes "Unknown"

-- `std::string::empty`
abbrev pub is_empty {ℓ} : {A : Type ℓ} → List A → Bool
is_empty [] = true
is_empty (x ∷ xs) = false

pub record StreamQuality : Type 0 where
  pub quality : Text
  pub label : Text
  pub flv_url : Text
  pub hls_url : Text

pub record StreamInfo : Type 0 where
  pub default_quality : Text
  pub qualities : List StreamQuality
  pub rtmp_pull_url : Text

-- The loop of `flv`.
unfoldable pub flv_in : List StreamQuality → Text → Text
flv_in [] quality = []
flv_in (q ∷ qs) quality = if same q.quality quality then q.flv_url else flv_in qs quality

unfoldable pub flv : StreamInfo → Text → Text
flv s quality = flv_in s.qualities quality

-- The loop of `best_flv`.
unfoldable pub first_flv : List StreamQuality → Text
first_flv [] = []
first_flv (q ∷ qs) = if not (is_empty q.flv_url) then q.flv_url else first_flv qs

unfoldable pub best_flv : StreamInfo → Text
best_flv s =
    let d = flv s s.default_quality in if not (is_empty d) then d else first_flv s.qualities

unfoldable pub has_nothing : StreamInfo → Bool
has_nothing s = is_empty s.qualities && is_empty s.rtmp_pull_url

pub record User : Type 0 where
  pub id : ℤ
  pub unique_id : Text
  pub nickname : Text
  pub verified : Bool
  pub avatar_url : Text

pub record GiftInfo : Type 0 where
  pub id : ℤ
  pub name : Text
  pub diamond_count : ℤ
  pub describe : Text
  pub type : ℤ
  pub icon_url : Text

pub record Event : Type 0 where
  pub type : EventType
  pub method : Text
  pub msg_id : ℤ
  pub user : User
  pub comment : Text
  pub gift_id : ℤ
  pub gift_name : Text
  pub repeat_count : ℤ
  pub gift_streaking : Bool
  pub diamond_count : ℤ
  pub gift_type : ℤ
  pub gift_icon_url : Text
  pub like_count : ℤ
  pub total_likes : ℤ
  pub member_count : ℤ
  pub viewer_count : ℤ
  pub control_action : ℤ
  pub unique_id : Text
  pub room_id : ℤ
  pub stream : StreamInfo
  pub raw_payload : List ℕ

unfoldable pub no_stream : StreamInfo
no_stream = record { default_quality = []; qualities = []; rtmp_pull_url = [] }

unfoldable pub no_user : User
no_user = record { id = pos 0; unique_id = []; nickname = []; verified = false; avatar_url = [] }

-- A default-constructed event.
unfoldable pub new_event : Event
new_event = record {
  type = unknown;
  method = [];
  msg_id = pos 0;
  user = no_user;
  comment = [];
  gift_id = pos 0;
  gift_name = [];
  repeat_count = pos 0;
  gift_streaking = false;
  diamond_count = pos 0;
  gift_type = pos 0;
  gift_icon_url = [];
  like_count = pos 0;
  total_likes = pos 0;
  member_count = pos 0;
  viewer_count = pos 0;
  control_action = pos 0;
  unique_id = [];
  room_id = pos 0;
  stream = no_stream;
  raw_payload = [];
}

-- `==` on event types, by their place in the enumeration.
abbrev pub index : EventType → ℕ
index connect = 0
index disconnect = 1
index comment = 2
index gift = 3
index like = 4
index join = 5
index follow = 6
index share = 7
index subscribe = 8
index room_user_seq = 9
index control = 10
index live_end = 11
index unknown = 12

unfoldable pub same_type : EventType → EventType → Bool
same_type s t = index s == index t
