-- ===== src/Live/Scan/RoomId.antt =====
-- Which id `scan_room_id` finds, and that it looks at every occurrence.
use ttlive_cpp.Prelude.{
  ℕ, zero, suc, ◌+◌, ◌^◌, ◌≤◌, ◌<◌, ◌≡◌, ◌≢◌, refl, ap, ◌∙◌, inl, inr, [], ◌∷◌, ◌++◌, true, false,
  ◌||◌, ◌==◌, leb, ltb, if◌then◌else◌, Option, none, some, length, All, arith, Option-cases,
}
use ttlive_cpp.Js.Text.{Text}
use ttlive_cpp.Live.Json.{strip, find_behind}
use ttlive_cpp.Live.Scan.{
  is_digit, take_digits, value, skip_quotes, room_key, Scanned, room, out_of_range, room_at,
  scanned_from, scan_loop, scan_room_id,
}

strip-shorter : (p s t : Text) → strip p s ≡ some t → length s ≡ length p + length t
unfolding strip
strip-shorter [] s t e = ground arith
strip-shorter (c ∷ p) [] t e = absurd (ground arith)
strip-shorter (c ∷ p) (x ∷ s) t e = ground (arith, strip-shorter p s t)

find_behind-shorter : (p s t : Text) → find_behind p s ≡ some t → length p + length t ≤ length s
unfolding find_behind
find_behind-shorter p [] t e = omega (arith, strip-shorter p [] t e)
find_behind-shorter p (x ∷ s) t e = elim (Option-cases (strip p (x ∷ s))) [
  | inl miss ↦ omega (arith, find_behind-shorter p s t (ground arith))
  | inr (u, hit) ↦ omega (arith, strip-shorter p (x ∷ s) t (ground arith))
]

scanned-agree :
    (f g : Text → Scanned) (found : Option Text)
    → ((t : Text) → found ≡ some t → f t ≡ g t)
    → scanned_from f found ≡ scanned_from g found
scanned-agree f g none h = refl
scanned-agree f g (some t) h = ap (room_at (take_digits (skip_quotes t))) (h t refl)

-- The number of bytes is fuel enough: an occurrence of the key leaves a shorter text.
pub scan_loop-enough :
    (m n : ℕ) (s : Text) → length s < m → length s < n → scan_loop m s ≡ scan_loop n s
unfolding scan_loop
scan_loop-enough zero n s hm hn = absurd (omega arith)
scan_loop-enough (suc m) zero s hm hn = absurd (omega arith)
scan_loop-enough (suc m) (suc n) s hm hn =
    scanned-agree (scan_loop m) (scan_loop n) (find_behind room_key s) (λ t hit.
      scan_loop-enough m n t (omega (arith, find_behind-shorter room_key s t hit))
        (omega (arith, find_behind-shorter room_key s t hit)))

-- What may stand between the key and the digits.
abbrev pub IsQuote : ℕ → Type 0
IsQuote c = (c == b'"' || c == b' ') ≡ true

abbrev pub IsDigit : ℕ → Type 0
IsDigit c = is_digit c ≡ true

-- The text does not go on with a digit.
abbrev pub DigitsEnd : Text → Type 0
DigitsEnd [] = Unit {0}
DigitsEnd (c ∷ s) = is_digit c ≡ false

skip_quotes-append : (q s : Text) → All IsQuote q → skip_quotes (q ++ s) ≡ skip_quotes s
unfolding skip_quotes
skip_quotes-append [] s h = refl
skip_quotes-append (c ∷ q) s h = rw (h.0) (skip_quotes-append q s h.1)

skip_quotes-digit : (c : ℕ) (s : Text) → IsDigit c → skip_quotes (c ∷ s) ≡ c ∷ s
unfolding skip_quotes
skip_quotes-digit c s h = ground arith

take_digits-append : (ds s : Text) → All IsDigit ds → DigitsEnd s → take_digits (ds ++ s) ≡ ds
unfolding take_digits
take_digits-append [] [] h ends = refl
take_digits-append [] (c ∷ s) h ends = rw ends
take_digits-append (d ∷ ds) s h ends = rw (h.0) (ap (λ t. d ∷ t) (take_digits-append ds s h.1 ends))

-- The text behind one occurrence of the key: quotes or spaces, a number, and no more digits.
abbrev pub Shows : Text → Text → Text → Text → Type 0
Shows q ds rest t =
    (t ≡ q ++ (ds ++ rest)) × (All IsQuote q × (All IsDigit ds × (DigitsEnd rest × (ds ≢ []))))

digits_shown : (q ds rest t : Text) → Shows q ds rest t → take_digits (skip_quotes t) ≡ ds
digits_shown q [] rest t (e, (hq, (hd, (ends, full)))) = absurd (full refl)
digits_shown q (d ∷ ds) rest t (e, (hq, (hd, (ends, full)))) =
    ap (λ u. take_digits (skip_quotes u)) e
    ∙ ap take_digits
        (skip_quotes-append q ((d ∷ ds) ++ rest) hq ∙ skip_quotes-digit d (ds ++ rest) hd.0)
    ∙ take_digits-append (d ∷ ds) rest hd ends

-- What an occurrence with the digits `ds` comes to, where the scan of the rest comes to `later`.
abbrev pub decided : Text → Scanned → Scanned
decided ds later =
    if leb (2 ^ 63) (value 0 ds)
    then out_of_range
    else if ltb 0 (value 0 ds)
    then room (value 0 ds)
    else later

room_at-decided : (ds : Text) (later : Scanned) → ds ≢ [] → room_at ds later ≡ decided ds later
room_at-decided [] later full = absurd (full refl)
room_at-decided (d ∷ ds) later full = refl

scan_step :
    (n : ℕ) (body t : Text)
    → find_behind room_key body ≡ some t
    → scan_loop (suc n) body ≡ room_at (take_digits (skip_quotes t)) (scan_loop n t)
unfolding scan_loop
scan_step n body t hit = ap (scanned_from (scan_loop n)) hit

-- The scan takes the number behind the first occurrence of the key, quoted or not, if it is neither 0
-- nor beyond 2 ^ 63 - 1; a 0 is passed over, and the scan goes on with the text behind the key; a larger
-- number ends it with an exception.
pub scan_room_id-first :
    (body t q ds rest : Text)
    → find_behind room_key body ≡ some t
    → Shows q ds rest t
    → scan_room_id body ≡ decided ds (scan_room_id t)
unfolding scan_room_id
scan_room_id-first body t q ds rest hit shows =
    scan_step (length body) body t hit
    ∙ ap (λ u. room_at u (scan_loop (length body) t)) (digits_shown q ds rest t shows)
    ∙ room_at-decided ds _ shows.1.1.1.1
    ∙ ap (decided ds) (
        scan_loop-enough (length body) (suc (length t)) t
          (omega (arith, find_behind-shorter room_key body t hit)) (omega arith))
