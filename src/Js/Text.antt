-- ===== src/Js/Text.antt =====
-- JavaScript strings as lists of code units, with the methods that the source calls.
use ttlive_cpp.Prelude.{
  ℕ, ◌≡◌, refl, ◌≢◌, ◌↔◌, Bool, true, false, ◌&&◌, ◌||◌, List, [], ◌∷◌, ◌++◌, Option, none, some,
  arith, leb, ◌==◌, if◌then◌else◌, All,
}

abbrev pub Text : Type 0
Text = List ℕ

-- `===` on strings.
unfoldable pub same : Text → Text → Bool
same [] [] = true
same (a ∷ s) (b ∷ t) = a == b && same s t
same _ _ = false

pub same_iff : (s t : Text) → (same s t ≡ true) ↔ (s ≡ t)
unfolding same
same_iff [] [] = (λ _. refl, λ _. refl)
same_iff [] (b ∷ t) = (λ e. cc, λ e. cc)
same_iff (a ∷ s) [] = (λ e. cc, λ e. cc)
same_iff (a ∷ s) (b ∷ t) = ground (arith, same_iff s t)

pub same_refl : (s : Text) → same s s ≡ true
same_refl s = (same_iff s s).1 refl

pub ne_of_same : (s t : Text) → same s t ≡ false → s ≢ t
ne_of_same s t h e = ground (arith, same_iff s t, h, e)

-- `str.split(c)[0]`: the text before the first `c`.
unfoldable pub before : ℕ → Text → Text
before c [] = []
before c (x ∷ s) = if x == c then [] else x ∷ before c s

-- The text behind the first `c`, if there is one.
unfoldable pub behind : ℕ → Text → Option Text
behind c [] = none
behind c (x ∷ s) = if x == c then some s else behind c s

-- What `trim` takes for white space.
unfoldable pub is_space : ℕ → Bool
is_space c =
    (leb 9 c && leb c 13)
    || (c == 32)
    || (c == 160)
    || (c == 0x1680)
    || (leb 0x2000 c && leb c 0x200a)
    || (c == 0x2028)
    || (c == 0x2029)
    || (c == 0x202f)
    || (c == 0x205f)
    || (c == 0x3000)
    || (c == 0xfeff)

unfoldable pub trim_start : Text → Text
trim_start [] = []
trim_start (x ∷ s) = if is_space x then trim_start s else x ∷ s

unfoldable pub trim_end : Text → Text
trim_end [] = []
trim_end (x ∷ s) = elim (trim_end s) [ [] ↦ if is_space x then [] else x ∷ [] | y ∷ t ↦ x ∷ y ∷ t ]

unfoldable pub trim : Text → Text
trim s = trim_end (trim_start s)

-- `parts.join(sep)`
unfoldable pub join : Text → List Text → Text
join sep [] = []
join sep (s ∷ []) = s
join sep (s ∷ t ∷ rest) = s ++ (sep ++ join sep (t ∷ rest))

-- `c` does not stand in the text.
abbrev pub Lacks : ℕ → Text → Type 0
Lacks c = All λ x. (x == c) ≡ false

pub before-append : (c : ℕ) (s rest : Text) → Lacks c s → before c (s ++ (c ∷ rest)) ≡ s
unfolding before
before-append c [] rest h = ground arith
before-append c (x ∷ s) rest h = ground (arith, before-append c s rest h.1)

pub before_all : (c : ℕ) (s : Text) → Lacks c s → before c s ≡ s
unfolding before
before_all c [] h = refl
before_all c (x ∷ s) h = ground (arith, before_all c s h.1)

pub behind-append : (c : ℕ) (s rest : Text) → Lacks c s → behind c (s ++ (c ∷ rest)) ≡ some rest
unfolding behind
behind-append c [] rest h = ground arith
behind-append c (x ∷ s) rest h = ground (arith, behind-append c s rest h.1)

pub behind_none : (c : ℕ) (s : Text) → Lacks c s → behind c s ≡ none
unfolding behind
behind_none c [] h = refl
behind_none c (x ∷ s) h = ground (arith, behind_none c s h.1)

pub Lacks-before : (c d : ℕ) (s : Text) → Lacks c s → Lacks c (before d s)
unfolding before
Lacks-before c d [] h = tt
Lacks-before c d (x ∷ s) h = ground (arith, Lacks-before c d s h.1)
