-- ===== src/Live/Socket/Reconnect.antt =====
-- What a connection takes over from the one before it.
use ttlive_cpp.Prelude.{ℕ, ◌≡◌, refl, ap, ◌∙◌, List, ◌++◌, true, some, All}
use ttlive_cpp.Js.Text.{Text}
use ttlive_cpp.Live.Socket.{
  Socket, Meta, Received, failed, chunk, Status, surfaced, connect, handshake_done, request_headers,
  recv_binary, recv_all, close,
}
use ttlive_cpp.Live.Socket.Reassembly.{IsOpen, IsPart, IsLast, all_bytes, recv_all-parts, recv_last}

-- The socket after it has read some chunks, lost the connection, and connected again.
abbrev pub reconnected : List Received → Text → Text → Socket → Socket
reconnected rs cookie agent s =
    (connect cookie agent handshake_done (close (recv_binary failed (recv_all rs s).0).0)).0

reconnected-eq :
    (rs : List Received) (cookie agent : Text) (s : Socket)
    → IsOpen s
    → All IsPart rs
    → reconnected rs cookie agent s ≡ (record {
      has_curl = true;
      hdrs = s.hdrs ++ request_headers cookie agent;
      partial = s.partial ++ all_bytes rs;
      connected = true;
    })
unfolding connect close recv_binary
reconnected-eq rs cookie agent s ready parts =
    rw (recv_all-parts rs s ready parts, ready.0, ready.1)

-- The buffer is not emptied by a new connection: where the old one broke off inside a message, the
-- first message of the new one comes out with the bytes of the broken one in front of it.
pub reconnect-leftover :
    (rs : List Received) (cookie agent : Text) (bytes : List ℕ) (m : Meta) (s : Socket)
    → IsOpen s
    → All IsPart rs
    → IsLast m
    → (recv_binary (chunk bytes (some m)) (reconnected rs cookie agent s)).1
      ≡ surfaced ((s.partial ++ all_bytes rs) ++ bytes)
reconnect-leftover rs cookie agent bytes m s ready parts ends =
    ap (λ (t : Socket). (recv_binary (chunk bytes (some m)) t).1)
      (reconnected-eq rs cookie agent s ready parts)
    ∙ ap (λ (p : Socket × Status). p.1) (recv_last bytes m _ (refl, refl) ends)

connect-IsOpen :
    (cookie agent : Text) (s : Socket) → IsOpen (connect cookie agent handshake_done s).0
unfolding connect
connect-IsOpen cookie agent s = (refl, refl)

connect-hdrs :
    (cookie agent : Text) (s : Socket)
    → (connect cookie agent handshake_done s).0.hdrs ≡ s.hdrs ++ request_headers cookie agent
unfolding connect
connect-hdrs cookie agent s = refl

-- Nor is the header list: the new handshake sends the headers of the old one, its cookies included,
-- and then its own.
pub reconnect-headers :
    (rs : List Received) (old_cookie old_agent cookie agent : Text) (s : Socket)
    → All IsPart rs
    → (reconnected rs cookie agent (connect old_cookie old_agent handshake_done s).0).hdrs
      ≡ (s.hdrs ++ request_headers old_cookie old_agent) ++ request_headers cookie agent
reconnect-headers rs old_cookie old_agent cookie agent s parts =
    ap (λ (t : Socket). t.hdrs)
      (reconnected-eq rs cookie agent (connect old_cookie old_agent handshake_done s).0
        (connect-IsOpen old_cookie old_agent s) parts)
    ∙ ap (λ h. h ++ request_headers cookie agent) (connect-hdrs old_cookie old_agent s)
