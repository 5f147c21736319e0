-- ===== src/Live/Socket/Tests.antt =====
-- Messages cut into chunks, and a connection that breaks off.
use ttlive_cpp.Prelude.{
  ℕ, ◌≡◌, refl, inl, inr, List, [], ◌∷◌, ◌++◌, Bool, true, false, some, All, arith, codes,
}
use ttlive_cpp.Live.Socket.{
  Socket, Meta, Received, again, chunk, try_again, message_ready, recv_all, recv_binary, connect,
  handshake_done, new_socket,
}
use ttlive_cpp.Live.Socket.Reassembly.{IsPart, recv_all-message, recv_all-control}
use ttlive_cpp.Live.Socket.Reconnect.{reconnected, reconnect-leftover, reconnect-headers}

abbrev ready : Socket
ready = record { has_curl = true; hdrs = []; partial = []; connected = true }

abbrev meta : Bool → Bool → ℕ → Meta
meta binary cont left = record {
  is_close = false;
  is_cont = cont;
  is_binary = binary;
  is_text = false;
  bytes_left = left;
}

abbrev first_parts : List Received
first_parts =
    chunk (1 ∷ []) (some (meta true true 2))
    ∷ again
    ∷ chunk (2 ∷ 3 ∷ []) (some (meta true true 0))
    ∷ []

first_parts-ArePart : All IsPart first_parts
first_parts-ArePart = ((refl, inl (omega arith)), (tt, ((refl, inr refl), tt)))

recv_all-message_example :
    recv_all (first_parts ++ (chunk (4 ∷ []) (some (meta true false 0)) ∷ [])) ready
    ≡ (ready, try_again ∷ try_again ∷ try_again ∷ message_ready (1 ∷ 2 ∷ 3 ∷ 4 ∷ []) ∷ [])
recv_all-message_example =
    recv_all-message first_parts (4 ∷ []) (meta true false 0) ready (refl, refl) first_parts-ArePart
      (refl, (refl, (refl, refl)))

recv_all-control_example :
    recv_all
      (first_parts
        ++ (chunk (9 ∷ []) (some (meta false false 0))
            ∷ (chunk (4 ∷ []) (some (meta true false 0)) ∷ [])))
      ready
    ≡ (ready, try_again ∷ try_again ∷ try_again ∷ try_again ∷ message_ready (4 ∷ []) ∷ [])
recv_all-control_example =
    recv_all-control first_parts [] (9 ∷ []) (4 ∷ []) (meta false false 0) (meta true false 0) ready
      (refl, refl) first_parts-ArePart (refl, (refl, (refl, refl))) tt (refl, (refl, (refl, refl)))

reconnect-leftover_example :
    (recv_binary
      (chunk (8 ∷ 9 ∷ []) (some (meta true false 0)))
      (reconnected first_parts (codes "a=1") [] ready)).1
    ≡ message_ready (1 ∷ 2 ∷ 3 ∷ 8 ∷ 9 ∷ [])
reconnect-leftover_example =
    reconnect-leftover first_parts (codes "a=1") [] (8 ∷ 9 ∷ []) (meta true false 0) ready
      (refl, refl) first_parts-ArePart (refl, (refl, (refl, refl)))

reconnect-headers_example :
    (reconnected first_parts
      (codes "a=2")
      []
      (connect (codes "a=1") [] handshake_done new_socket).0).hdrs
    ≡ codes "Cookie: a=1"
      ∷ codes "Origin: https://www.tiktok.com"
      ∷ codes "Cookie: a=2"
      ∷ codes "Origin: https://www.tiktok.com"
      ∷ []
unfolding new_socket
reconnect-headers_example =
    reconnect-headers first_parts (codes "a=1") [] (codes "a=2") [] new_socket first_parts-ArePart
