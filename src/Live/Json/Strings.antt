-- ===== src/Live/Json/Strings.antt =====
-- A string field that a JSON writer has put down is read back; of an escape beyond ASCII nothing is
-- left.
use mathlib.Core.List.{append_assoc, append-nil}
use ttlive_cpp.Prelude.{
  ℕ, zero, suc, ◌≤◌, ◌≡◌, refl, sym, ap, ◌∙◌, inl, inr, [], ◌∷◌, ◌++◌, false, ◌||◌, ◌==◌,
  if◌then◌else◌, Option, some, length, arith, Bool-cases,
}
use ttlive_cpp.Js.Text.{Text}
use ttlive_cpp.Live.Json.{
  find_behind, string_needle, beyond, code_of, coded, escaped_char, prepend, unicode_escape,
  unescape_loop, json_unescape, raw_string, json_string_field,
}

unicode_escape-agree :
    (f g : Text → Option Text) (x y : Option Text) (s : Text)
    → x ≡ y
    → ((t : Text) → length t ≤ length s → f t ≡ g t)
    → unicode_escape f x s ≡ unicode_escape g y s
unicode_escape-agree f g x y [] e h = e
unicode_escape-agree f g x y (a ∷ []) e h = e
unicode_escape-agree f g x y (a ∷ b ∷ []) e h = e
unicode_escape-agree f g x y (a ∷ b ∷ c ∷ []) e h = e
unicode_escape-agree f g x y (a ∷ b ∷ c ∷ d ∷ s) e h =
    ap (coded (code_of (a ∷ b ∷ c ∷ d ∷ []))) (h s (omega arith))

-- The length of the text is fuel enough.
pub unescape_loop-enough :
    (m n : ℕ) (s : Text) → length s ≤ m → length s ≤ n → unescape_loop m s ≡ unescape_loop n s
unfolding unescape_loop
unescape_loop-enough zero zero [] hm hn = refl
unescape_loop-enough zero (suc n) [] hm hn = refl
unescape_loop-enough (suc m) zero [] hm hn = refl
unescape_loop-enough (suc m) (suc n) [] hm hn = refl
unescape_loop-enough zero n (c ∷ s) hm hn = absurd (omega arith)
unescape_loop-enough (suc m) zero (c ∷ s) hm hn = absurd (omega arith)
unescape_loop-enough (suc m) (suc n) (c ∷ []) hm hn =
    ap (prepend c) (unescape_loop-enough m n [] (omega arith) (omega arith))
unescape_loop-enough (suc m) (suc n) (c ∷ d ∷ s) hm hn =
    let shorter : ((t : Text) → length t ≤ length s → unescape_loop m t ≡ unescape_loop n t) =
      λ t h. unescape_loop-enough m n t (omega arith) (omega arith) in
    let simple =
      ap (prepend (escaped_char d)) (unescape_loop-enough m n s (omega arith) (omega arith)) in
    let plain = ap (prepend c) (unescape_loop-enough m n (d ∷ s) (omega arith) (omega arith)) in
    let unicode = unicode_escape-agree (unescape_loop m) (unescape_loop n) _ _ s simple shorter in
    elim (Bool-cases (c == b'\\')) [
      | inl slash ↦ elim (Bool-cases (d == b'u')) [
        | inl is_u ↦ rw (slash, is_u) unicode
        | inr other ↦ rw (slash, other) simple
      ]
      | inr away ↦ rw away plain
    ]

-- A writer's escape of one byte; bytes that need none stand for themselves.
abbrev pub escape_char : ℕ → Text
escape_char c =
    if c == 10
    then b'\\' ∷ b'n' ∷ []
    else if c == 9
    then b'\\' ∷ b't' ∷ []
    else if c == 13
    then b'\\' ∷ b'r' ∷ []
    else if c == b'"' || c == b'\\'
    then b'\\' ∷ c ∷ []
    else c ∷ []

abbrev pub escape : Text → Text
escape [] = []
escape (c ∷ s) = escape_char c ++ escape s

-- The ways in which a byte is written.
pub data Written (c : ℕ) : Type 0 where
  slashed :
      (d : ℕ)
      → escape_char c ≡ b'\\' ∷ d ∷ []
      → (d == b'u') ≡ false
      → escaped_char d ≡ c
      → Written c
  itself : escape_char c ≡ c ∷ [] → (c == b'\\') ≡ false → (c == b'"') ≡ false → Written c

pub written : (c : ℕ) → Written c
unfolding escaped_char
written c = elim (Bool-cases (c == 10)) [
  | inl e ↦ slashed b'n' (rw e) refl (ground arith)
  | inr not_10 ↦ elim (Bool-cases (c == 9)) [
    | inl e ↦ slashed b't' (rw (not_10, e)) refl (ground arith)
    | inr not_9 ↦ elim (Bool-cases (c == 13)) [
      | inl e ↦ slashed b'r' (rw (not_10, not_9, e)) refl (ground arith)
      | inr not_13 ↦ elim (Bool-cases (c == b'"' || c == b'\\')) [
        | inl e ↦ slashed c (rw (not_10, not_9, not_13, e)) (ground arith) (ground arith)
        | inr plain ↦ itself (rw (not_10, not_9, not_13, plain)) (ground arith) (ground arith)
      ]
    ]
  ]
]

raw-plain :
    (c : ℕ) (s : Text)
    → (c == b'\\') ≡ false
    → (c == b'"') ≡ false
    → raw_string (c ∷ s) ≡ c ∷ raw_string s
unfolding raw_string
raw-plain c [] h k = rw k
raw-plain c (d ∷ s) h k = rw (h, k)

raw-char : (c : ℕ) (s : Text) → raw_string (escape_char c ++ s) ≡ escape_char c ++ raw_string s
raw-char c s = elim (written c) [
  | slashed d e h k ↦ rw e (unfold raw_string in refl)
  | itself e h k ↦ rw e (raw-plain c s h k)
]

pub raw-escape : (v rest : Text) → raw_string (escape v ++ (b'"' ∷ rest)) ≡ escape v
raw-escape [] [] = unfold raw_string in refl
raw-escape [] (d ∷ rest) = unfold raw_string in refl
raw-escape (c ∷ v) rest =
    ap raw_string (append_assoc (escape_char c) (escape v) (b'"' ∷ rest))
    ∙ raw-char c (escape v ++ (b'"' ∷ rest))
    ∙ ap (λ t. escape_char c ++ t) (raw-escape v rest)

unescape-slashed :
    (d : ℕ) (s : Text)
    → (d == b'u') ≡ false
    → json_unescape (b'\\' ∷ d ∷ s) ≡ prepend (escaped_char d) (json_unescape s)
unfolding json_unescape
unescape-slashed d s h =
    unfold unescape_loop in
    rw h (
      ap (prepend (escaped_char d))
        (unescape_loop-enough (suc (length s)) (length s) s (omega arith) (omega arith)))

unescape-plain :
    (c : ℕ) (s : Text) → (c == b'\\') ≡ false → json_unescape (c ∷ s) ≡ prepend c (json_unescape s)
unfolding json_unescape unescape_loop
unescape-plain c [] h = refl
unescape-plain c (d ∷ s) h = rw h

unescape-char :
    (c : ℕ) (s : Text) → json_unescape (escape_char c ++ s) ≡ prepend c (json_unescape s)
unescape-char c s = elim (written c) [
  | slashed d e h k ↦ rw e (unescape-slashed d s h ∙ ap (λ b. prepend b (json_unescape s)) k)
  | itself e h k ↦ rw e (unescape-plain c s h)
]

abbrev prepend_all : Text → Option Text → Option Text
prepend_all [] o = o
prepend_all (c ∷ v) o = prepend c (prepend_all v o)

pub unescape-escape : (v t : Text) → json_unescape (escape v ++ t) ≡ prepend_all v (json_unescape t)
unescape-escape [] t = refl
unescape-escape (c ∷ v) t =
    ap json_unescape (append_assoc (escape_char c) (escape v) t)
    ∙ unescape-char c (escape v ++ t)
    ∙ ap (prepend c) (unescape-escape v t)

prepend_all-some : (v w : Text) → prepend_all v (some w) ≡ some (v ++ w)
prepend_all-some [] w = refl
prepend_all-some (c ∷ v) w = ap (prepend c) (prepend_all-some v w)

nothing_escaped : json_unescape [] ≡ some []
unfolding json_unescape unescape_loop
nothing_escaped = refl

pub escape_only : (v : Text) → json_unescape (escape v) ≡ some v
escape_only v =
    ap json_unescape (sym (append-nil (escape v)))
    ∙ unescape-escape v []
    ∙ ap (prepend_all v) nothing_escaped
    ∙ prepend_all-some v []
    ∙ ap some (append-nil v)

-- A string field whose first occurrence a JSON writer has put down, with quotes, backslashes and line
-- ends escaped, is read back, whatever follows it.
pub json_string_field-escape :
    (json key v rest : Text)
    → find_behind (string_needle key) json ≡ some (escape v ++ (b'"' ∷ rest))
    → json_string_field json key ≡ some v
unfolding json_string_field
json_string_field-escape json key v rest found =
    rw found (ap json_unescape (raw-escape v rest) ∙ escape_only v)

unescape-beyond :
    (a b d e : ℕ) (t : Text)
    → code_of (a ∷ b ∷ d ∷ e ∷ []) ≡ some beyond
    → json_unescape (b'\\' ∷ b'u' ∷ a ∷ b ∷ d ∷ e ∷ t) ≡ json_unescape t
unfolding json_unescape
unescape-beyond a b d e t h =
    unfold unescape_loop in
    rw h (
      unescape_loop-enough (suc (suc (suc (suc (suc (length t)))))) (length t) t (omega arith)
        (omega arith))

-- Of an escape whose code is 0x80 or more nothing is left in the text, neither the character nor the
-- escape.
pub json_unescape-beyond :
    (v w : Text) (a b d e : ℕ)
    → code_of (a ∷ b ∷ d ∷ e ∷ []) ≡ some beyond
    → json_unescape (escape v ++ (b'\\' ∷ b'u' ∷ a ∷ b ∷ d ∷ e ∷ escape w)) ≡ some (v ++ w)
json_unescape-beyond v w a b d e h =
    unescape-escape v (b'\\' ∷ b'u' ∷ a ∷ b ∷ d ∷ e ∷ escape w)
    ∙ ap (prepend_all v) (unescape-beyond a b d e (escape w) h ∙ escape_only w)
    ∙ prepend_all-some v w
