-- ===== src/Slardar/Visitor/Tests.antt =====
-- A visitor who comes back twice, with a simple writing of records.
use ttlive_cpp.Prelude.{
  ℕ, zero, suc, ◌+◌, ◌==◌, ◌++◌, if◌then◌else◌, Bool, false, All, ◌≢◌, ◌≡◌, refl, sym, ap, ◌∙◌,
  true, List, [], ◌∷◌, Option, none, some, codes, arith,
}
use mathlib.Core.List.{nil≢cons}
use ttlive_cpp.Js.Text.{Text}
use ttlive_cpp.Js.Object.{own}
use ttlive_cpp.Slardar.Visitor.{Ids, Stored, Browser, load, migrate, ids_of, visit_all}
use ttlive_cpp.Slardar.Visitor.Return.{spoiled, HasIds, next_ids, visit_all-next}
use ttlive_cpp.Shim.Base64.Encode.{IsByte}

-- A text, moved up by one and ended by 0.
abbrev enc : Text → Text → Text
enc [] rest = 0 ∷ rest
enc (c ∷ s) rest = suc c ∷ enc s rest

abbrev until : Text → Text × Text
until [] = ([], [])
until (zero ∷ s) = ([], s)
until (suc c ∷ s) = let r = until s in (c ∷ r.0, r.1)

until-enc : (t rest : Text) → until (enc t rest) ≡ (t, rest)
until-enc [] rest = refl
until-enc (c ∷ t) rest = ap (λ (r : Text × Text). (c ∷ r.0, r.1)) (until-enc t rest)

abbrev put_option : Option Text → Text → Text
put_option none rest = 0 ∷ rest
put_option (some t) rest = 1 ∷ enc t rest

abbrev get_option : Text → Option Text × Text
get_option [] = (none, [])
get_option (zero ∷ s) = (none, s)
get_option (suc n ∷ s) = let r = until s in (some r.0, r.1)

get_option-put_option : (o : Option Text) (rest : Text) → get_option (put_option o rest) ≡ (o, rest)
get_option-put_option none rest = refl
get_option-put_option (some t) rest = ap (λ (r : Text × Text). (some r.0, r.1)) (until-enc t rest)

abbrev write_record : Stored → ℕ → Text
write_record s e = 120 ∷ e ∷ put_option s.user (put_option s.device [])

abbrev read_record : Text → Option (Stored × Option ℕ)
read_record [] = none
read_record (x ∷ []) = none
read_record (x ∷ e ∷ s) =
    let u = get_option s in
    let d = get_option u.1 in some (record { user = u.0; device = d.0 }, some e)

read_record-write_record : (s : Stored) (e : ℕ) → read_record (write_record s e) ≡ some (s, some e)
read_record-write_record s e =
    ap
      (λ (u : Option Text × Text).
        some (record { user = u.0; device = (get_option u.1).0 }, some e))
      (get_option-put_option s.user (put_option s.device []))
    ∙ ap (λ (d : Option Text × Text). some (record { user = s.user; device = d.0 }, some e))
        (get_option-put_option s.device [])

-- Numbers in bytes: as many ones, and a zero behind them.
abbrev ones : ℕ → Text → Text
ones zero rest = b'0' ∷ rest
ones (suc n) rest = b'1' ∷ ones n rest

abbrev unary : Text → Text
unary [] = []
unary (n ∷ ns) = ones n (unary ns)

abbrev cons_to : ℕ → Option Text → Option Text
cons_to n none = none
cons_to n (some t) = some (n ∷ t)

numbers : ℕ → Text → Option Text
numbers n [] = some []
numbers n (c ∷ s) =
    let more = numbers (suc n) s in
    let next = numbers 0 s in if c == b'1' then more else if c == b'0' then cons_to n next else none

plus_suc : (n m : ℕ) → n + suc m ≡ suc n + m
plus_suc n m = omega arith

plus_zero : (n : ℕ) → n + 0 ≡ n
plus_zero n = omega arith

zero_plus : (n : ℕ) → 0 + n ≡ n
zero_plus n = omega arith

numbers-ones : (n m : ℕ) (rest : Text) → numbers m (ones n rest) ≡ cons_to (m + n) (numbers 0 rest)
unfolding numbers
numbers-ones zero m rest = ap (λ k. cons_to k (numbers 0 rest)) (sym (plus_zero m))
numbers-ones (suc n) m rest =
    numbers-ones n (suc m) rest ∙ ap (λ k. cons_to k (numbers 0 rest)) (sym (plus_suc m n))

numbers-unary : (t : Text) → numbers 0 (unary t) ≡ some t
unfolding numbers
numbers-unary [] = refl
numbers-unary (n ∷ t) =
    numbers-ones n 0 (unary t) ∙ rw (numbers-unary t) (ap (λ k. some (k ∷ t)) (zero_plus n))

either_none :
    (a b : Bool) → ◌≡◌ {A = Option Text} (if a then none else if b then none else none) none
either_none true b = refl
either_none false true = refl
either_none false false = refl

numbers-spoiled : (n : ℕ) (p : Text) → numbers n (p ++ spoiled) ≡ none
unfolding numbers
numbers-spoiled n [] = refl
numbers-spoiled n (c ∷ p) =
    rw (numbers-spoiled (suc n) p) (rw (numbers-spoiled 0 p) (either_none (c == b'1') (c == b'0')))

ones-bytes : (n : ℕ) (rest : Text) → All IsByte rest → All IsByte (ones n rest)
ones-bytes zero rest h = (omega arith, h)
ones-bytes (suc n) rest h = (omega arith, ones-bytes n rest h)

unary-bytes : (t : Text) → All IsByte (unary t)
unary-bytes [] = tt
unary-bytes (n ∷ t) = ones-bytes n (unary t) (unary-bytes t)

abbrev read_numbers : Option Text → Option (Stored × Option ℕ)
read_numbers none = none
read_numbers (some t) = read_record t

abbrev a_browser : Browser
a_browser = record {
  text = λ s e. unary (write_record s e);
  read = λ t. read_numbers (numbers 0 t);
  parse = λ t. none;
  writable = true;
}

a_browser-reads : (s : Stored) (e : ℕ) → a_browser.read (a_browser.text s e) ≡ some (s, some e)
a_browser-reads s e = rw (numbers-unary (write_record s e)) (read_record-write_record s e)

a_browser-refuses : (p : Text) → a_browser.read (p ++ spoiled) ≡ none
a_browser-refuses p = rw (numbers-spoiled 0 p) refl

abbrev ids_at : ℕ → Ids
ids_at n = record { user = n ∷ []; device = n ∷ n ∷ [] }

abbrev later : List (ℕ × Ids)
later = (4, ids_at 2) ∷ (5, ids_at 3) ∷ []

not_empty : (c : ℕ) (s : Text) → (c ∷ s) ≢ []
not_empty c s e = nil≢cons (sym e)

has_ids : (n : ℕ) → HasIds (ids_at n)
has_ids n = (not_empty n [], not_empty n (n ∷ []))

visit_all-next_example :
    visit_all a_browser (codes "SLARDAR") 9 ((3, ids_at 1) ∷ later) []
    ≡ ids_at 1 ∷ next_ids a_browser 9 (ids_at 1) 12 later
unfolding ids_of load migrate own
visit_all-next_example =
    visit_all-next a_browser (codes "SLARDAR") 9 (λ s e. unary-bytes (write_record s e))
      a_browser-reads a_browser-refuses refl (omega arith) 3 (ids_at 1) later [] (has_ids 1)
      (has_ids 2, (has_ids 3, tt))
