-- ===== src/Live/Socket/Reassembly.antt =====
-- How `recv_binary` puts the chunks of a message together.
use ttlive_cpp.Prelude.{
  ℕ, ◌≡◌, refl, sym, ap, ◌∙◌, ◌<◌, ◌⊎◌, inl, inr, List, [], ◌∷◌, ◌++◌, true, false, ◌||◌, none,
  some, ltb, arith, All, map,
}
use ttlive_cpp.Live.Socket.{
  Socket, Meta, Received, again, failed, chunk, Status, try_again, surfaced, recv_binary, recv_all,
}
use mathlib.Core.List.{append_assoc, append-nil}

-- More of the message is to come: the rest of the frame, or a later frame.
abbrev pub IsMore : Meta → Type 0
IsMore m = (m.is_close ≡ false) × ((0 < m.bytes_left) ⊎ (m.is_cont ≡ true))

-- The frame is whole and ends a message of either kind.
abbrev pub IsLast : Meta → Type 0
IsLast m =
    (m.is_close ≡ false)
    × ((m.bytes_left ≡ 0) × ((m.is_cont ≡ false) × ((m.is_binary || m.is_text) ≡ true)))

-- The frame is whole and carries no data: a ping or a pong.
abbrev pub IsControl : Meta → Type 0
IsControl m =
    (m.is_close ≡ false)
    × ((m.bytes_left ≡ 0) × ((m.is_cont ≡ false) × ((m.is_binary || m.is_text) ≡ false)))

-- What may come before the last chunk: an incomplete one, or nothing for the moment.
abbrev pub IsPart : Received → Type 0
IsPart again = Unit {0}
IsPart failed = ⊥
IsPart (chunk bytes none) = ⊥
IsPart (chunk bytes (some m)) = IsMore m

abbrev pub bytes_of : Received → List ℕ
bytes_of again = []
bytes_of failed = []
bytes_of (chunk bytes m) = bytes

abbrev pub all_bytes : List Received → List ℕ
all_bytes [] = []
all_bytes (r ∷ rs) = bytes_of r ++ all_bytes rs

abbrev pub IsOpen : Socket → Type 0
IsOpen s = (s.connected ≡ true) × (s.has_curl ≡ true)

recv_part :
    (r : Received) (s : Socket)
    → IsOpen s
    → IsPart r
    → recv_binary r s ≡ (record s { partial = s.partial ++ bytes_of r }, try_again)
unfolding recv_binary
recv_part again s ready h = rw (ready.0, ready.1, append-nil s.partial)
recv_part failed s ready h = absurd h
recv_part (chunk bytes none) s ready h = absurd h
recv_part (chunk bytes (some m)) s ready (stays, inl left) =
    let rest : ltb 0 m.bytes_left ≡ true = ground arith in rw (ready.0, ready.1, stays, rest)
recv_part (chunk bytes (some m)) s ready (stays, inr cont) =
    rw (ready.0, ready.1, stays, cont) (ground arith)

pub recv_last :
    (bytes : List ℕ) (m : Meta) (s : Socket)
    → IsOpen s
    → IsLast m
    → recv_binary (chunk bytes (some m)) s
      ≡ (record s { partial = [] }, surfaced (s.partial ++ bytes))
unfolding recv_binary
recv_last bytes m s ready (stays, (whole, (alone, carries))) =
    let rest : ltb 0 m.bytes_left ≡ false = ground arith in
    rw (ready.0, ready.1, stays, rest, alone, carries)

pub recv_control :
    (bytes : List ℕ) (m : Meta) (s : Socket)
    → IsOpen s
    → IsControl m
    → recv_binary (chunk bytes (some m)) s ≡ (record s { partial = [] }, try_again)
unfolding recv_binary
recv_control bytes m s ready (stays, (whole, (alone, none_of))) =
    let rest : ltb 0 m.bytes_left ≡ false = ground arith in
    rw (ready.0, ready.1, stays, rest, alone, none_of)

abbrev pub waits : List Received → List Status
waits rs = map (λ _. try_again) rs

recv_all-append :
    (rs qs : List Received) (s : Socket)
    → recv_all (rs ++ qs) s
      ≡ ((recv_all qs (recv_all rs s).0).0, (recv_all rs s).1 ++ (recv_all qs (recv_all rs s).0).1)
unfolding recv_all
recv_all-append [] qs s = refl
recv_all-append (r ∷ rs) qs s =
    ap (λ (p : Socket × List Status). (p.0, (recv_binary r s).1 ∷ p.1))
      (recv_all-append rs qs (recv_binary r s).0)

-- Parts are put behind what is there, and each call asks to try again.
pub recv_all-parts :
    (rs : List Received) (s : Socket)
    → IsOpen s
    → All IsPart rs
    → recv_all rs s ≡ (record s { partial = s.partial ++ all_bytes rs }, waits rs)
unfolding recv_all
recv_all-parts [] s ready h = ap (λ b. (record s { partial = b }, [])) (sym (append-nil s.partial))
recv_all-parts (r ∷ rs) s ready h =
    let now = recv_part r s ready h.0 in
    let later = recv_all-parts rs (record s { partial = s.partial ++ bytes_of r }) ready h.1 in
    ap (λ (p : Socket × Status). ((recv_all rs p.0).0, p.1 ∷ (recv_all rs p.0).1)) now
    ∙ ap (λ (p : Socket × List Status). (p.0, try_again ∷ p.1)) later
    ∙ ap (λ b. (record s { partial = b }, try_again ∷ waits rs))
        (append_assoc s.partial (bytes_of r) (all_bytes rs))

recv_all-next :
    (rs qs : List Received) (s t : Socket) (a : List Status)
    → recv_all rs s ≡ (t, a)
    → recv_all (rs ++ qs) s ≡ ((recv_all qs t).0, a ++ (recv_all qs t).1)
recv_all-next rs qs s t a e =
    recv_all-append rs qs s
    ∙ ap (λ (p : Socket × List Status). ((recv_all qs p.0).0, p.1 ++ (recv_all qs p.0).1)) e

recv_all-step :
    (r : Received) (rs : List Received) (s t : Socket) (status : Status)
    → recv_binary r s ≡ (t, status)
    → recv_all (r ∷ rs) s ≡ ((recv_all rs t).0, status ∷ (recv_all rs t).1)
unfolding recv_all
recv_all-step r rs s t status e =
    ap (λ (p : Socket × Status). ((recv_all rs p.0).0, p.1 ∷ (recv_all rs p.0).1)) e

recv_all-one :
    (r : Received) (s t : Socket) (status : Status)
    → recv_binary r s ≡ (t, status)
    → recv_all (r ∷ []) s ≡ (t, status ∷ [])
unfolding recv_all
recv_all-one r s t status e = recv_all-step r [] s t status e

-- A message comes out whole and once, however its frames are cut into chunks and however often there
-- is nothing to read in between: each call before the last asks to try again, and the last one
-- surfaces what was in the buffer and the bytes of all chunks, in order, and empties the buffer.
pub recv_all-message :
    (rs : List Received) (bytes : List ℕ) (m : Meta) (s : Socket)
    → IsOpen s
    → All IsPart rs
    → IsLast m
    → recv_all (rs ++ (chunk bytes (some m) ∷ [])) s ≡ (
      record s { partial = [] },
      waits rs ++ (surfaced ((s.partial ++ all_bytes rs) ++ bytes) ∷ []),
    )
recv_all-message rs bytes m s ready parts ends =
    let t : Socket = record s { partial = s.partial ++ all_bytes rs } in
    recv_all-next rs (chunk bytes (some m) ∷ []) s t (waits rs) (recv_all-parts rs s ready parts)
    ∙ ap (λ (p : Socket × List Status). (p.0, waits rs ++ p.1))
        (recv_all-one _ t _ _ (recv_last bytes m t ready ends))

-- A whole frame without data empties the buffer: of a message whose chunks it comes between only the
-- part behind it is surfaced.
pub recv_all-control :
    (rs qs : List Received) (ping bytes : List ℕ) (c m : Meta) (s : Socket)
    → IsOpen s
    → All IsPart rs
    → IsControl c
    → All IsPart qs
    → IsLast m
    → recv_all (rs ++ (chunk ping (some c) ∷ (qs ++ (chunk bytes (some m) ∷ [])))) s ≡ (
      record s { partial = [] },
      waits rs ++ (try_again ∷ (waits qs ++ (surfaced (all_bytes qs ++ bytes) ∷ []))),
    )
recv_all-control rs qs ping bytes c m s ready parts control more ends =
    let t : Socket = record s { partial = s.partial ++ all_bytes rs } in
    let u : Socket = record s { partial = [] } in
    recv_all-next rs _ s t (waits rs) (recv_all-parts rs s ready parts)
    ∙ ap (λ (p : Socket × List Status). (p.0, waits rs ++ p.1))
        (recv_all-step _ _ t u try_again (recv_control ping c t ready control)
          ∙ ap (λ (p : Socket × List Status). (p.0, try_again ∷ p.1))
              (recv_all-message qs bytes m u ready more ends))
