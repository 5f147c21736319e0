-- ===== src/Live/Socket.antt =====
-- `WsClient` of src/ws_client.cpp. What libcurl answers is given to each operation as an argument.
pub mod Reassembly
pub mod Reconnect
mod Tests
use ttlive_cpp.Prelude.{
  ℕ, zero, suc, List, [], ◌∷◌, ◌++◌, Bool, true, false, not, ◌||◌, ◌&&◌, Option, none, some,
  if◌then◌else◌, ltb, codes,
}
use ttlive_cpp.Js.Text.{Text}
use ttlive_cpp.Live.Event.{is_empty}

-- The handle (there or null), the header list, the reassembly buffer, and `connected_`.
pub record Socket : Type 0 where
  pub has_curl : Bool
  pub hdrs : List Text
  pub partial : List ℕ
  pub connected : Bool

unfoldable pub new_socket : Socket
new_socket = record { has_curl = false; hdrs = []; partial = []; connected = false }

-- How a connection attempt goes: no handle, or a handshake that fails or not.
pub data Attempt : Type 0 where
  no_handle handshake_failed handshake_done : Attempt

-- The headers that `connect` appends.
abbrev pub cookie_line : Text → List Text
cookie_line [] = []
cookie_line (c ∷ cookie) = (codes "Cookie: " ++ (c ∷ cookie)) ∷ []

abbrev pub agent_line : Text → List Text
agent_line [] = []
agent_line (c ∷ agent) = (codes "User-Agent: " ++ (c ∷ agent)) ∷ []

abbrev pub request_headers : Text → Text → List Text
request_headers cookie agent =
    cookie_line cookie ++ (codes "Origin: https://www.tiktok.com" ∷ agent_line agent)

-- The new state, and false where it throws.
unfoldable pub connect : Text → Text → Attempt → Socket → Socket × Bool
connect cookie agent no_handle s = (record s { has_curl = false }, false)
connect cookie agent handshake_failed s =
    (record s { has_curl = false; hdrs = s.hdrs ++ request_headers cookie agent }, false)
connect cookie agent handshake_done s = (
  record s { has_curl = true; hdrs = s.hdrs ++ request_headers cookie agent; connected = true },
  true,
)

-- `send_binary`, where `sent` tells whether `curl_ws_send` succeeds.
unfoldable pub send_binary : Bool → Socket → Socket × Bool
send_binary sent s =
    if not s.connected || not s.has_curl
    then (s, false)
    else if sent
    then (s, true)
    else (record s { connected = false }, false)

-- The flags and the `bytesleft` of a frame's metadata.
pub record Meta : Type 0 where
  pub is_close : Bool
  pub is_cont : Bool
  pub is_binary : Bool
  pub is_text : Bool
  pub bytes_left : ℕ

-- What `curl_ws_recv` gives: nothing now, an error, or a chunk with its metadata.
pub data Received : Type 0 where
  again failed : Received
  chunk : List ℕ → Option Meta → Received

pub data Status : Type 0 where
  message_ready : List ℕ → Status
  try_again closed error : Status

-- A payload that is complete; an empty one is not surfaced.
abbrev pub surfaced : List ℕ → Status
surfaced [] = try_again
surfaced (b ∷ bytes) = message_ready (b ∷ bytes)

-- What follows the accumulation of a chunk, by the tests in the order of the source.
abbrev pub accumulated : Option Meta → Socket → Socket × Status
accumulated none s = (record s { partial = [] }, try_again)
accumulated (some m) s =
    if ltb 0 m.bytes_left
    then (s, try_again)
    else if m.is_cont
    then (s, try_again)
    else if m.is_binary || m.is_text
    then (record s { partial = [] }, surfaced s.partial)
    else (record s { partial = [] }, try_again)

abbrev pub closes : Option Meta → Bool
closes none = false
closes (some m) = m.is_close

unfoldable pub recv_binary : Received → Socket → Socket × Status
recv_binary r s = if not s.connected || not s.has_curl then (s, error) else received r s
  where
    received : Received → Socket → Socket × Status
    received again s = (s, try_again)
    received failed s = (record s { connected = false }, error)
    received (chunk bytes m) s =
        if closes m
        then (record s { connected = false }, closed)
        else accumulated m (record s { partial = s.partial ++ bytes })

unfoldable pub close : Socket → Socket
close s = record s { connected = false }

-- A sequence of calls of `recv_binary`, with what each answers.
unfoldable pub recv_all : List Received → Socket → Socket × List Status
recv_all [] s = (s, [])
recv_all (r ∷ rs) s =
    let (s', status) = recv_binary r s in let (t, more) = recv_all rs s' in (t, status ∷ more)
