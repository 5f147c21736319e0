-- ===== src/Live/Http/Cookies.antt =====
-- `cookie` finds a cookie in the header that `cookie_header` writes.
use mathlib.Core.List.{append-nil, append_assoc}
use ttlive_cpp.Prelude.{
  ℕ, zero, suc, ◌≤◌, ◌<◌, ◌≡◌, refl, sym, ap, ◌∙◌, List, [], ◌∷◌, ◌++◌, Bool, true, false, ◌==◌,
  if◌then◌else◌, codes, Option, none, some, All, All-append, length, length-append, arith,
}
use ttlive_cpp.Js.Text.{
  Text, same, Lacks, before, behind, before-append, before_all, behind-append, behind_none,
}
use ttlive_cpp.Live.Event.{is_empty}
use ttlive_cpp.Live.Http.{
  split_tabs, pair_of, header_loop, cookie_header, skip_blanks, value_in, or_later, behind_semi,
  cookie_loop, cookie,
}

abbrev pair : Text × Text → Text
pair (k, v) = k ++ (b'=' ∷ v)

-- The lines of a cookie list, with the cookies of those that have seven parts.
pub data Lists : List Text → List (Text × Text) → Type 0 where
  nil : Lists [] []
  other :
      {line : Text} {ls : List Text} {kvs : List (Text × Text)}
      → pair_of (split_tabs line) ≡ none
      → Lists ls kvs
      → Lists (line ∷ ls) kvs
  cookie_line :
      {line k v : Text} {ls : List Text} {kvs : List (Text × Text)}
      → pair_of (split_tabs line) ≡ some (k ++ (b'=' ∷ v))
      → Lists ls kvs
      → Lists (line ∷ ls) ((k, v) ∷ kvs)

-- No blank comes first.
abbrev pub NoBlank : Text → Type 0
NoBlank [] = Unit {0}
NoBlank (c ∷ s) = (c == b' ') ≡ false

-- A cookie as a server may set it.
abbrev pub IsCookie : Text × Text → Type 0
IsCookie (k, v) = NoBlank k × (Lacks b'=' k × (Lacks b';' k × Lacks b';' v))

-- The first value of a name, or nothing.
abbrev pub first_value : Text → List (Text × Text) → Text
first_value name [] = []
first_value name ((k, v) ∷ kvs) = if same k name then v else first_value name kvs

abbrev tails : List (Text × Text) → Text
tails [] = []
tails (kv ∷ kvs) = b';' ∷ b' ' ∷ (pair kv ++ tails kvs)

abbrev joined : List (Text × Text) → Text
joined [] = []
joined (kv ∷ kvs) = pair kv ++ tails kvs

header-tails :
    (ls : List Text) (kvs : List (Text × Text)) (out : Text)
    → Lists ls kvs
    → is_empty out ≡ false
    → header_loop out ls ≡ out ++ tails kvs
unfolding header_loop
header-tails _ _ out nil full = sym (append-nil out)
header-tails _ _ out (other {line} {ls} {kvs} miss rest) full =
    rw miss (header-tails ls kvs out rest full)
header-tails _ _ out (cookie_line {line} {k} {v} {ls} {kvs} hit rest) full =
    rw (hit, full)
      (header-tails ls kvs ((out ++ codes "; ") ++ (k ++ (b'=' ∷ v))) rest
          (still_full out (k ++ (b'=' ∷ v)) full)
        ∙ append_assoc (out ++ codes "; ") (k ++ (b'=' ∷ v)) (tails kvs)
        ∙ append_assoc out (codes "; ") ((k ++ (b'=' ∷ v)) ++ tails kvs))
  where
    still_full : (out t : Text) → is_empty out ≡ false → is_empty ((out ++ codes "; ") ++ t) ≡ false
    still_full [] t h = absurd (ground (arith, h))
    still_full (c ∷ out) t h = refl

cookie-step :
    (left : ℕ) (name t : Text)
    → is_empty t ≡ false
    → cookie_loop (suc left) name t
      ≡ or_later
          (value_in name (skip_blanks (before b';' t)) (behind b'=' (skip_blanks (before b';' t))))
          (behind_semi (cookie_loop left name) (behind b';' t))
unfolding cookie_loop
cookie-step left name [] full = absurd (ground (arith, full))
cookie-step left name (c ∷ t) full = refl

abbrev AllBlank : Text → Type 0
AllBlank = All (λ c. (c == b' ') ≡ true)

pair-NoBlank : (kv : Text × Text) → IsCookie kv → NoBlank (pair kv)
pair-NoBlank ([], v) h = refl
pair-NoBlank (c ∷ k, v) h = h.0

skip_none : (s : Text) → NoBlank s → skip_blanks s ≡ s
unfolding skip_blanks
skip_none [] h = refl
skip_none (c ∷ s) h = rw h

skip_lead : (lead s : Text) → AllBlank lead → skip_blanks (lead ++ s) ≡ skip_blanks s
unfolding skip_blanks
skip_lead [] s h = refl
skip_lead (c ∷ lead) s h = rw (h.0) (skip_lead lead s h.1)

pair-Lacks : (kv : Text × Text) → IsCookie kv → Lacks b';' (pair kv)
pair-Lacks (k, v) h = All-append (λ x. (x == b';') ≡ false) k (b'=' ∷ v) h.1.1.0 (refl, h.1.1.1)

lead-Lacks : (lead : Text) → AllBlank lead → Lacks b';' lead
lead-Lacks [] h = tt
lead-Lacks (c ∷ lead) h = (ground (arith, h.0), lead-Lacks lead h.1)

-- What one round finds in its pair.
pair_value :
    (name : Text) (kv : Text × Text)
    → IsCookie kv
    → value_in name (pair kv) (behind b'=' (pair kv)) ≡ (if same kv.0 name then some kv.1 else none)
pair_value name (k, v) h = rw (behind-append b'=' k v h.1.0, before-append b'=' k v h.1.0)

-- What follows the pair of a round.
abbrev rest_of : List (Text × Text) → Option Text
rest_of [] = none
rest_of (kv ∷ kvs) = some (b' ' ∷ joined (kv ∷ kvs))

cut_semi :
    (t : Text) (kvs : List (Text × Text))
    → Lacks b';' t
    → (before b';' (t ++ tails kvs) ≡ t) × (behind b';' (t ++ tails kvs) ≡ rest_of kvs)
cut_semi t [] h = rw (append-nil t) (before_all b';' t h, behind_none b';' t h)
cut_semi t (kv ∷ kvs) h = (
  before-append b';' t (b' ' ∷ joined (kv ∷ kvs)) h,
  behind-append b';' t (b' ' ∷ joined (kv ∷ kvs)) h,
)

one_round :
    (left : ℕ) (name lead : Text) (kv : Text × Text) (kvs : List (Text × Text))
    → AllBlank lead
    → IsCookie kv
    → cookie_loop (suc left) name ((lead ++ pair kv) ++ tails kvs)
      ≡ (if same kv.0 name then kv.1 else behind_semi (cookie_loop left name) (rest_of kvs))
one_round left name lead kv kvs blank h =
    let t = lead ++ pair kv in
    let cut = cut_semi t kvs (
      All-append (λ x. (x == b';') ≡ false) lead (pair kv) (lead-Lacks lead blank)
        (pair-Lacks kv h)) in
    let bare = skip_lead lead (pair kv) blank ∙ skip_none (pair kv) (pair-NoBlank kv h) in
    cookie-step left name (t ++ tails kvs) (not_empty lead kv kvs)
    ∙ rw (cut.0, cut.1, bare, pair_value name kv h) (settled (same kv.0 name) kv.1 _)
  where
    settled :
        (b : Bool) (v later : Text)
        → or_later (if b then some v else none) later ≡ (if b then v else later)
    settled true v later = refl
    settled false v later = refl

    not_empty :
        (lead : Text) (kv : Text × Text) (kvs : List (Text × Text))
        → is_empty ((lead ++ pair kv) ++ tails kvs) ≡ false
    not_empty [] ([], v) kvs = refl
    not_empty [] (c ∷ k, v) kvs = refl
    not_empty (c ∷ lead) kv kvs = refl

loop_finds :
    (n : ℕ) (name lead : Text) (kv : Text × Text) (kvs : List (Text × Text))
    → AllBlank lead
    → IsCookie kv
    → All IsCookie kvs
    → length kvs < n
    → cookie_loop n name ((lead ++ pair kv) ++ tails kvs) ≡ first_value name (kv ∷ kvs)
loop_finds zero name lead kv kvs blank h hs few = absurd (omega arith)
loop_finds (suc n) name lead kv [] blank h hs few = one_round n name lead kv [] blank h
loop_finds (suc n) name lead kv (next ∷ kvs) blank h hs few =
    one_round n name lead kv (next ∷ kvs) blank h
    ∙ ap (λ later. if same kv.0 name then kv.1 else later)
        (loop_finds n name (b' ' ∷ []) next kvs (refl, tt) hs.0 hs.1 (omega arith))

tails-long : (kvs : List (Text × Text)) → length kvs ≤ length (tails kvs)
tails-long [] = omega arith
tails-long (kv ∷ kvs) = omega (arith, length-append (pair kv) (tails kvs), tails-long kvs)

header-joined :
    (ls : List Text) (kvs : List (Text × Text)) → Lists ls kvs → cookie_header ls ≡ joined kvs
unfolding cookie_header header_loop
header-joined _ _ nil = refl
header-joined _ _ (other {line} {ls} {kvs} miss rest) = rw miss (header-joined ls kvs rest)
header-joined _ _ (cookie_line {line} {k} {v} {ls} {kvs} hit rest) =
    rw hit (header-tails ls kvs (k ++ (b'=' ∷ v)) rest (has_sign k v))
  where
    has_sign : (k v : Text) → is_empty (k ++ (b'=' ∷ v)) ≡ false
    has_sign [] v = refl
    has_sign (c ∷ k) v = refl

-- In the header made of a cookie list a name is found with the value of its first line; a name
-- without a line gives the empty text. Lines with fewer than seven parts do not count.
pub cookie-cookie_header :
    (ls : List Text) (kvs : List (Text × Text)) (name : Text)
    → Lists ls kvs
    → All IsCookie kvs
    → cookie name (cookie_header ls) ≡ first_value name kvs
unfolding cookie
cookie-cookie_header ls [] name lists h =
    ap (λ t. cookie_loop (suc (length t)) name t) (header-joined ls [] lists)
    ∙ unfold cookie_loop in refl
cookie-cookie_header ls (kv ∷ kvs) name lists h =
    ap (λ t. cookie_loop (suc (length t)) name t) (header-joined ls (kv ∷ kvs) lists)
    ∙ loop_finds _ name [] kv kvs tt h.0 h.1
        (omega (arith, length-append (pair kv) (tails kvs), tails-long kvs))
