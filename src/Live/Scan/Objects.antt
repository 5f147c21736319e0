-- ===== src/Live/Scan/Objects.antt =====
-- `json_object_field` cuts out a whole object, with nested objects, and with braces, quotes and
-- backslashes inside strings.
use mathlib.Core.List.{append_assoc}
use ttlive_cpp.Prelude.{
  ℕ, suc, ◌-◌, ◌≡◌, refl, sym, ap, ◌∙◌, [], ◌∷◌, ◌++◌, true, false, ◌||◌, ◌==◌, Option, some, arith,
}
use ttlive_cpp.Js.Text.{Text}
use ttlive_cpp.Live.Json.{find_behind}
use ttlive_cpp.Live.Scan.{cons_to, object_loop, object_needle, json_object_field}

-- The inside of a string: bytes that need no escape, and escapes.
pub data Body : Text → Type 0 where
  nil : Body []
  plain : {c : ℕ} {s : Text} → (c == b'"' || c == b'\\') ≡ false → Body s → Body (c ∷ s)
  escaped : {c : ℕ} {s : Text} → Body s → Body (b'\\' ∷ c ∷ s)

-- The inside of an object: other bytes, strings, and nested objects.
pub data Inside : Text → Type 0 where
  nil : Inside []
  plain :
      {c : ℕ} {s : Text} → (c == b'"' || c == b'{' || c == b'}') ≡ false → Inside s → Inside (c ∷ s)
  string : {b s : Text} → Body b → Inside s → Inside (b'"' ∷ (b ++ (b'"' ∷ s)))
  object : {a s : Text} → Inside a → Inside s → Inside (b'{' ∷ (a ++ (b'}' ∷ s)))

abbrev before_all_of : Text → Option Text → Option Text
before_all_of [] o = o
before_all_of (c ∷ s) o = cons_to c (before_all_of s o)

-- A byte of a string that is neither a quote nor a backslash is passed over.
body_byte :
    (d c : ℕ) (b t : Text)
    → (c == b'"' || c == b'\\') ≡ false
    → object_loop d true (c ∷ (b ++ (b'"' ∷ t))) ≡ cons_to c (object_loop d true (b ++ (b'"' ∷ t)))
body_byte d c [] t h = unfold object_loop in ground arith
body_byte d c (x ∷ b) t h = unfold object_loop in ground arith

string_end :
    (d : ℕ) (t : Text) → object_loop d true (b'"' ∷ t) ≡ cons_to b'"' (object_loop d false t)
string_end d [] = unfold object_loop in refl
string_end d (x ∷ t) = unfold object_loop in refl

body_escape :
    (d c : ℕ) (t : Text)
    → object_loop d true (b'\\' ∷ c ∷ t) ≡ cons_to b'\\' (cons_to c (object_loop d true t))
unfolding object_loop
body_escape d c t = refl

skip_quoted :
    (d : ℕ) (b t : Text)
    → Body b
    → object_loop d true (b ++ (b'"' ∷ t)) ≡ before_all_of b (cons_to b'"' (object_loop d false t))
skip_quoted d _ t nil = string_end d t
skip_quoted d _ t (plain {c} {s} h body) =
    body_byte d c s t h ∙ ap (cons_to c) (skip_quoted d s t body)
skip_quoted d _ t (escaped {c} {s} body) =
    body_escape d c (s ++ (b'"' ∷ t))
    ∙ ap (λ o. cons_to b'\\' (cons_to c o)) (skip_quoted d s t body)

before_all-append :
    (a b : Text) (o : Option Text) → before_all_of (a ++ b) o ≡ before_all_of a (before_all_of b o)
before_all-append [] b o = refl
before_all-append (c ∷ a) b o = ap (cons_to c) (before_all-append a b o)

before_all-some : (a t : Text) → before_all_of a (some t) ≡ some (a ++ t)
before_all-some [] t = refl
before_all-some (c ∷ a) t = ap (cons_to c) (before_all-some a t)

other_byte :
    (d c : ℕ) (t : Text)
    → (c == b'"' || c == b'{' || c == b'}') ≡ false
    → object_loop d false (c ∷ t) ≡ cons_to c (object_loop d false t)
unfolding object_loop
other_byte d c t h = ground arith

string_start :
    (d : ℕ) (t : Text) → object_loop d false (b'"' ∷ t) ≡ cons_to b'"' (object_loop d true t)
unfolding object_loop
string_start d t = refl

goes_in :
    (d : ℕ) (t : Text) → object_loop d false (b'{' ∷ t) ≡ cons_to b'{' (object_loop (suc d) false t)
unfolding object_loop
goes_in d t = refl

goes_out :
    (d : ℕ) (t : Text)
    → object_loop (suc (suc d)) false (b'}' ∷ t) ≡ cons_to b'}' (object_loop (suc d) false t)
unfolding object_loop
goes_out d t =
    let deep : (suc (suc d) == 1) ≡ false = ground arith in
    let up : suc (suc d) - 1 ≡ suc d = omega arith in rw (deep, up)

closes : (t : Text) → object_loop 1 false (b'}' ∷ t) ≡ some (b'}' ∷ [])
unfolding object_loop
closes t = refl

-- The inside of an object is passed over at any depth but 0.
skip_nested :
    (d : ℕ) (a t : Text)
    → Inside a
    → object_loop (suc d) false (a ++ t) ≡ before_all_of a (object_loop (suc d) false t)
skip_nested d _ t nil = refl
skip_nested d _ t (plain {c} {s} h rest) =
    other_byte (suc d) c (s ++ t) h ∙ ap (cons_to c) (skip_nested d s t rest)
skip_nested d _ t (string {b} {s} body rest) =
    string_start (suc d) ((b ++ (b'"' ∷ s)) ++ t)
    ∙ ap (λ u. cons_to b'"' (object_loop (suc d) true u)) (append_assoc b (b'"' ∷ s) t)
    ∙ ap (cons_to b'"') (
        skip_quoted (suc d) b (s ++ t) body
        ∙ ap (λ o. before_all_of b (cons_to b'"' o)) (skip_nested d s t rest)
        ∙ sym (before_all-append b (b'"' ∷ s) (object_loop (suc d) false t)))
skip_nested d _ t (object {a} {s} inner rest) =
    goes_in (suc d) ((a ++ (b'}' ∷ s)) ++ t)
    ∙ ap (λ u. cons_to b'{' (object_loop (suc (suc d)) false u)) (append_assoc a (b'}' ∷ s) t)
    ∙ ap (cons_to b'{') (
        skip_nested (suc d) a (b'}' ∷ (s ++ t)) inner
        ∙ ap (before_all_of a) (goes_out d (s ++ t) ∙ ap (cons_to b'}') (skip_nested d s t rest))
        ∙ sym (before_all-append a (b'}' ∷ s) (object_loop (suc d) false t)))

-- The object behind the first occurrence of the key is cut out whole, however its inside is nested
-- and whatever its strings hold, braces and escaped quotes included.
pub json_object_field-Inside :
    (json key a rest : Text)
    → Inside a
    → find_behind (object_needle key) json ≡ some (a ++ (b'}' ∷ rest))
    → json_object_field json key ≡ b'{' ∷ (a ++ (b'}' ∷ []))
unfolding json_object_field
json_object_field-Inside json key a rest inside found = rw (
  found,
  goes_in 0 (a ++ (b'}' ∷ rest)),
  skip_nested 0 a (b'}' ∷ rest) inside,
  closes rest,
  before_all-some a (b'}' ∷ []),
)
