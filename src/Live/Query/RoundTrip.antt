-- ===== src/Live/Query/RoundTrip.antt =====
-- A server that splits a query at `&` and `=` and undoes the percent encoding reads the parameters
-- that the client wrote.
use Prim.Native.Nat.{bit_and}
use mathlib.Core.Path.{ap₂}
use mathlib.Core.List.{append-nil}
use ttlive_cpp.Prelude.{
  ℕ, ◌+◌, ◌*◌, ◌-◌, ◌<◌, ◌≡◌, refl, ap, ◌∙◌, inl, inr, List, [], ◌∷◌, ◌++◌, Bool, true, false, ◌&&◌,
  ltb, ◌==◌, ==_iff, if◌then◌else◌, Option, none, some, All, All-append, map, arith, holds_below,
  holds_below-at, Bool-cases,
}
use ttlive_cpp.Prelude.Bits.{◌>>◌}
use ttlive_cpp.Js.Text.{Text, Lacks, before, behind, before-append, behind-append}
use ttlive_cpp.Live.Query.{
  hex, is_unreserved, encode_byte, encoded, pair_text, encode_from, encode_query,
}

abbrev hex_value : ℕ → ℕ
hex_value d = if ltb d b'A' then d - b'0' else d - 55

-- The decoder: `%` and two digits give a byte.
pub decode : Text → Text
decode [] = []
decode (c ∷ []) = c ∷ []
decode (c ∷ h ∷ []) = c ∷ h ∷ []
decode (c ∷ h ∷ l ∷ s) =
    let escaped = (hex_value h * 16 + hex_value l) ∷ decode s in
    let plain = c ∷ decode (h ∷ l ∷ s) in if c == b'%' then escaped else plain

-- What the escape of a byte is, tried on all of them.
abbrev escape_ok : ℕ → Bool
escape_ok c =
    (hex_value (hex (c >> 4)) * 16 + hex_value (hex (bit_and c 0x0F)) == c)
    && is_unreserved (hex (c >> 4))
    && is_unreserved (hex (bit_and c 0x0F))

escapes : holds_below escape_ok 256 ≡ true
unfolding holds_below is_unreserved
escapes = refl

abbrev pub IsByte : ℕ → Type 0
IsByte c = c < 256

decode-plain : (c : ℕ) (s : Text) → (c == b'%') ≡ false → decode (c ∷ s) ≡ c ∷ decode s
unfolding decode
decode-plain c [] h = refl
decode-plain c (d ∷ []) h = refl
decode-plain c (d ∷ e ∷ s) h = rw h

decode-encode_byte : (c : ℕ) (s : Text) → IsByte c → decode (encode_byte c ++ s) ≡ c ∷ decode s
unfolding encode_byte
decode-encode_byte c s h = elim (Bool-cases (is_unreserved c)) [
  | inl free ↦
      let plain : (c == b'%') ≡ false = unfold is_unreserved in ground arith in
      rw free (decode-plain c s plain)
  | inr taken ↦
      let ok = holds_below-at escape_ok 256 escapes c h in
      rw taken (unfold decode in ap (λ d. d ∷ decode s) (ground (arith)))
]

decode-encoded : (s : Text) → All IsByte s → decode (encoded s) ≡ s
unfolding encoded
decode-encoded [] h = unfold decode in refl
decode-encoded (c ∷ s) h =
    decode-encode_byte c (encoded s) h.0 ∙ ap (λ t. c ∷ t) (decode-encoded s h.1)

-- A query is cut at every `&`.
abbrev push : ℕ → List Text → List Text
push c [] = (c ∷ []) ∷ []
push c (t ∷ ts) = (c ∷ t) ∷ ts

pub split : Text → List Text
split [] = [] ∷ []
split (c ∷ s) = if c == b'&' then [] ∷ split s else push c (split s)

split_all : (s : Text) → Lacks b'&' s → split s ≡ s ∷ []
unfolding split
split_all [] h = refl
split_all (c ∷ s) h = rw (h.0, split_all s h.1)

split-append : (s rest : Text) → Lacks b'&' s → split (s ++ (b'&' ∷ rest)) ≡ s ∷ split rest
unfolding split
split-append [] rest h = refl
split-append (c ∷ s) rest h = rw (h.0, split-append s rest h.1)

-- One parameter is cut at its first `=`, and both sides are decoded.
abbrev or_empty : Option Text → Text
or_empty none = []
or_empty (some t) = t

pub parse_pair : Text → Text × Text
parse_pair t = (decode (before b'=' t), decode (or_empty (behind b'=' t)))

pub parse_query : Text → List (Text × Text)
parse_query q = map parse_pair (split q)

special : (d x : ℕ) → is_unreserved d ≡ false → is_unreserved x ≡ true → (x == d) ≡ false
special d x h free = elim (Bool-cases (x == d)) [
  | inl hit ↦ absurd (ground (arith, ap is_unreserved ((==_iff x d).0 hit)))
  | inr miss ↦ miss
]

encode_byte-Lacks :
    (d c : ℕ) → is_unreserved d ≡ false → (b'%' == d) ≡ false → IsByte c → Lacks d (encode_byte c)
unfolding encode_byte
encode_byte-Lacks d c h percent byte = elim (Bool-cases (is_unreserved c)) [
  | inl free ↦ rw free (special d c h free, tt)
  | inr taken ↦
      let ok = holds_below-at escape_ok 256 escapes c byte in
      let first : is_unreserved (hex (c >> 4)) ≡ true = ground arith in
      let second : is_unreserved (hex (bit_and c 0x0F)) ≡ true = ground arith in
      rw taken (percent, (special d _ h first, (special d _ h second, tt)))
]

encoded-Lacks :
    (d : ℕ) (s : Text)
    → is_unreserved d ≡ false
    → (b'%' == d) ≡ false
    → All IsByte s
    → Lacks d (encoded s)
unfolding encoded
encoded-Lacks d [] h percent bytes = tt
encoded-Lacks d (c ∷ s) h percent bytes =
    All-append (λ x. (x == d) ≡ false) (encode_byte c) (encoded s)
      (encode_byte-Lacks d c h percent bytes.0) (encoded-Lacks d s h percent bytes.1)

abbrev pub AreBytes : Text × Text → Type 0
AreBytes (k, v) = All IsByte k × All IsByte v

pair_text-Lacks : (kv : Text × Text) → AreBytes kv → Lacks b'&' (pair_text kv)
unfolding pair_text
pair_text-Lacks (k, v) h =
    let no_amp : is_unreserved b'&' ≡ false = unfold is_unreserved in refl in
    All-append (λ x. (x == b'&') ≡ false) (encoded k) (b'=' ∷ encoded v)
      (encoded-Lacks b'&' k no_amp refl h.0) (refl, encoded-Lacks b'&' v no_amp refl h.1)

parse_pair-pair_text : (kv : Text × Text) → AreBytes kv → parse_pair (pair_text kv) ≡ kv
unfolding parse_pair pair_text
parse_pair-pair_text (k, v) h =
    let no_eq : is_unreserved b'=' ≡ false = unfold is_unreserved in refl in
    let lacks = encoded-Lacks b'=' k no_eq refl h.0 in
    rw
      (
        before-append b'=' (encoded k) (encoded v) lacks,
        behind-append b'=' (encoded k) (encoded v) lacks,
      )
      (ap₂ (λ (a b : Text). (a, b)) (decode-encoded k h.0) (decode-encoded v h.1))

parse_rest :
    (kv : Text × Text) (params : List (Text × Text))
    → AreBytes kv
    → All AreBytes params
    → parse_query (pair_text kv ++ encode_from false params) ≡ kv ∷ params
unfolding parse_query encode_from
parse_rest kv [] h hs =
    rw (append-nil (pair_text kv), split_all (pair_text kv) (pair_text-Lacks kv h))
      (ap (λ p. p ∷ []) (parse_pair-pair_text kv h))
parse_rest kv (next ∷ params) h hs =
    ap (map parse_pair) (
      split-append (pair_text kv) (pair_text next ++ encode_from false params)
        (pair_text-Lacks kv h))
    ∙ ap₂ (λ p ps. p ∷ ps) (parse_pair-pair_text kv h) (parse_rest next params hs.0 hs.1)

-- What `encode_query` writes for a list of parameters is cut and decoded to that list, whatever bytes
-- the keys and values hold: no text of a parameter can be taken for a separator.
pub parse_query-encode_query :
    (kv : Text × Text) (params : List (Text × Text))
    → AreBytes kv
    → All AreBytes params
    → parse_query (encode_query (kv ∷ params)) ≡ kv ∷ params
unfolding encode_query encode_from
parse_query-encode_query kv params h hs = parse_rest kv params h hs
