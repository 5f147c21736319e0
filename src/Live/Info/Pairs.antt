-- ===== src/Live/Info/Pairs.antt =====
-- `parse_pairs` reads back an object of string fields.
use mathlib.Core.List.{append_assoc}
use ttlive_cpp.Prelude.{
  ℕ, zero, suc, ◌<◌, ◌≡◌, refl, ap, ◌∙◌, List, [], ◌∷◌, ◌++◌, false, ◌==◌, some, All, length,
  length-append, arith,
}
use ttlive_cpp.Js.Text.{Text, Lacks, before, behind, before-append, behind-append}
use ttlive_cpp.Live.Json.Strings.{
  escape, escape_char, slashed, itself, written, raw-escape, escape_only,
}
use ttlive_cpp.Live.Info.{then_found, raw_rest, add_pair, value_at, key_at, pairs_loop, parse_pairs}

-- A field as a writer puts it down, with its key unescaped.
abbrev pub field : Text × Text → Text
field (k, v) = b'"' ∷ (k ++ (b'"' ∷ b':' ∷ b'"' ∷ (escape v ++ (b'"' ∷ []))))

-- The fields after the first one, and the closing brace.
abbrev pub more_fields : List (Text × Text) → Text
more_fields [] = b'}' ∷ []
more_fields (kv ∷ kvs) = b',' ∷ (field kv ++ more_fields kvs)

abbrev pub object_text : List (Text × Text) → Text
object_text [] = b'{' ∷ b'}' ∷ []
object_text (kv ∷ kvs) = b'{' ∷ (field kv ++ more_fields kvs)

rest-plain :
    (c : ℕ) (s : Text) → (c == b'\\') ≡ false → (c == b'"') ≡ false → raw_rest (c ∷ s) ≡ raw_rest s
unfolding raw_rest
rest-plain c [] h k = refl
rest-plain c (d ∷ s) h k = rw (h, k)

rest-char : (c : ℕ) (s : Text) → raw_rest (escape_char c ++ s) ≡ raw_rest s
rest-char c s = elim (written c) [
  | slashed d e h k ↦ rw e (unfold raw_rest in refl)
  | itself e h k ↦ rw e (rest-plain c s h k)
]

rest-escape : (v rest : Text) → raw_rest (escape v ++ (b'"' ∷ rest)) ≡ rest
rest-escape [] [] = unfold raw_rest in refl
rest-escape [] (d ∷ rest) = unfold raw_rest in refl
rest-escape (c ∷ v) rest =
    ap raw_rest (append_assoc (escape_char c) (escape v) (b'"' ∷ rest))
    ∙ rest-char c (escape v ++ (b'"' ∷ rest))
    ∙ rest-escape v rest

-- One round reads one field.
one_field :
    (n c : ℕ) (k v rest : Text)
    → (c == b'"') ≡ false
    → Lacks b'"' k
    → pairs_loop (suc n) (c ∷ (b'"' ∷ (k ++ (b'"' ∷ b':' ∷ b'"' ∷ (escape v ++ (b'"' ∷ rest))))))
      ≡ add_pair k (some v) (pairs_loop n rest)
unfolding pairs_loop
one_field n c k v rest h lacks =
    let value = escape v ++ (b'"' ∷ rest) in
    let tail = b':' ∷ b'"' ∷ value in
    ap (λ o. then_found o (key_at (pairs_loop n)))
      (behind-append b'"' (c ∷ []) (k ++ (b'"' ∷ tail)) (h, tt))
    ∙ ap
        (λ o. then_found o λ b. then_found (behind b':' b) λ c.
          then_found (behind b'"' c)
            λ d. value_at (pairs_loop n) (before b'"' (k ++ (b'"' ∷ tail))) d)
        (behind-append b'"' k tail lacks)
    ∙ ap
        (λ o. then_found o λ c.
          then_found (behind b'"' c)
            λ d. value_at (pairs_loop n) (before b'"' (k ++ (b'"' ∷ tail))) d)
        (behind-append b':' [] (b'"' ∷ value) tt)
    ∙ ap (λ o. then_found o λ d. value_at (pairs_loop n) (before b'"' (k ++ (b'"' ∷ tail))) d)
        (behind-append b'"' [] value tt)
    ∙ rw (before-append b'"' k tail lacks, raw-escape v rest, escape_only v, rest-escape v rest)

field-append :
    (k v rest : Text)
    → field (k, v) ++ rest ≡ b'"' ∷ (k ++ (b'"' ∷ b':' ∷ b'"' ∷ (escape v ++ (b'"' ∷ rest))))
field-append k v rest =
    ap (λ s. b'"' ∷ s) (append_assoc k (b'"' ∷ b':' ∷ b'"' ∷ (escape v ++ (b'"' ∷ []))) rest)
    ∙ ap (λ s. b'"' ∷ (k ++ (b'"' ∷ b':' ∷ b'"' ∷ s))) (append_assoc (escape v) (b'"' ∷ []) rest)

pub first_field :
    (n c : ℕ) (kv : Text × Text) (rest : Text)
    → (c == b'"') ≡ false
    → Lacks b'"' kv.0
    → pairs_loop (suc n) (c ∷ (field kv ++ rest)) ≡ add_pair kv.0 (some kv.1) (pairs_loop n rest)
first_field n c (k, v) rest h lacks =
    ap (λ s. pairs_loop (suc n) (c ∷ s)) (field-append k v rest) ∙ one_field n c k v rest h lacks

abbrev pub KeysPlain : List (Text × Text) → Type 0
KeysPlain = All (λ kv. Lacks b'"' kv.0)

loop-more :
    (n : ℕ) (kvs : List (Text × Text))
    → length kvs < n
    → KeysPlain kvs
    → pairs_loop n (more_fields kvs) ≡ some kvs
unfolding behind
loop-more zero kvs h plain = absurd (omega arith)
loop-more (suc n) [] h plain = unfold pairs_loop in refl
loop-more (suc n) (kv ∷ kvs) h (p, plain) =
    first_field n b',' kv (more_fields kvs) refl p
    ∙ ap (add_pair kv.0 (some kv.1)) (loop-more n kvs (omega arith) plain)

more-length : (kvs : List (Text × Text)) → length kvs < length (more_fields kvs)
more-length [] = omega arith
more-length (kv ∷ kvs) =
    let ih = more-length kvs in
    let joined = length-append (field kv) (more_fields kvs) in omega arith

-- An object of string fields, whose keys hold no quote and whose values a writer escaped, is read
-- back as the list of its fields, in their order, whatever the values hold.
pub parse_pairs-object_text :
    (kvs : List (Text × Text)) → KeysPlain kvs → parse_pairs (object_text kvs) ≡ some kvs
unfolding parse_pairs behind
parse_pairs-object_text [] plain = unfold pairs_loop in refl
parse_pairs-object_text (kv ∷ kvs) (p, plain) =
    let shorter = more-length kvs in
    let joined = length-append (field kv) (more_fields kvs) in
    first_field (length (field kv ++ more_fields kvs)) b'{' kv (more_fields kvs) refl p
    ∙ ap (add_pair kv.0 (some kv.1))
        (loop-more (length (field kv ++ more_fields kvs)) kvs (omega arith) plain)
