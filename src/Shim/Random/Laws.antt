-- ===== src/Shim/Random/Laws.antt =====
-- The range and the evenness of the drawn values, and the form of an UUID.
use Prim.Native.Nat.{bit_and, bit_or}
use mathlib.Core.Bool.{and-eq-true_iff}
use ttlive_cpp.Prelude.{
  ℕ, suc, ◌+◌, ◌-◌, ◌*◌, ◌^◌, ◌==◌, ◌<◌, ◌≤◌, ◌≡◌, refl, ◌↔◌, inl, inr, true, ◌||◌, ◌&&◌, List, [],
  ◌∷◌, if◌then◌else◌, codes, any, arith, holds_below, holds_below-at, Bool-cases,
}
use ttlive_cpp.Shim.Random.{
  Stream, IsRandom, draw, bits_for, hex_digit, template, replacement, fill_template, random_uuid,
}

-- Each value of an 8-bit, 16-bit or 32-bit element comes from one run of equally many numbers.
draw_iff_4 : (k v : ℕ) → k < 2 ^ 53 → (draw 4 k ≡ v) ↔ ((v * 2 ^ 49 ≤ k) × (k < (v + 1) * 2 ^ 49))
unfolding draw
draw_iff_4 k v h = (λ e. omega arith, λ e. omega arith)

pub draw_iff_8 :
    (k v : ℕ) → k < 2 ^ 53 → (draw 8 k ≡ v) ↔ ((v * 2 ^ 45 ≤ k) × (k < (v + 1) * 2 ^ 45))
unfolding draw
draw_iff_8 k v h = (λ e. omega arith, λ e. omega arith)

pub draw_iff_16 :
    (k v : ℕ) → k < 2 ^ 53 → (draw 16 k ≡ v) ↔ ((v * 2 ^ 37 ≤ k) × (k < (v + 1) * 2 ^ 37))
unfolding draw
draw_iff_16 k v h = (λ e. omega arith, λ e. omega arith)

pub draw_iff_32 :
    (k v : ℕ) → k < 2 ^ 53 → (draw 32 k ≡ v) ↔ ((v * 2 ^ 21 ≤ k) × (k < (v + 1) * 2 ^ 21))
unfolding draw
draw_iff_32 k v h = (λ e. omega arith, λ e. omega arith)

-- A drawn value is below `2 ^ bits`, and each such value comes from equally many of the numbers that
-- `Math.random` can give, those of one interval.
pub draw_even :
    (size k v : ℕ)
    → k < 2 ^ 53
    → (draw (bits_for size) k ≡ v)
      ↔ ((v * 2 ^ (53 - bits_for size) ≤ k) × (k < (v + 1) * 2 ^ (53 - bits_for size)))
draw_even size k v h = elim (Bool-cases (size == 1)) [
  | inl one ↦ rw one (draw_iff_8 k v h)
  | inr other ↦ elim (Bool-cases (size == 2)) [
    | inl two ↦ rw (other, two) (draw_iff_16 k v h)
    | inr four ↦ rw (other, four) (draw_iff_32 k v h)
  ]
]

-- What a place of the template asks of the character put there.
abbrev pub Fits : ℕ → ℕ → Type 0
Fits c o =
    (if c == b'x'
      then any (λ d. d == o) (codes "0123456789abcdef")
      else if c == b'y'
      then any (λ d. d == o) (codes "89ab")
      else o == c)
    ≡ true

abbrev pub FitsAll : List ℕ → List ℕ → Type 0
FitsAll [] [] = Unit {0}
FitsAll (c ∷ t) (o ∷ u) = Fits c o × FitsAll t u
FitsAll _ _ = ⊥

digits_table :
    holds_below
      (λ r.
        any (λ d. d == hex_digit r) (codes "0123456789abcdef")
        && any (λ d. d == hex_digit (bit_or (bit_and r 3) 8)) (codes "89ab"))
      16
    ≡ true
unfolding holds_below
digits_table = refl

draw_four-lt : (k : ℕ) → k < 2 ^ 53 → draw 4 k < 16
unfolding draw
draw_four-lt k h = omega arith

hex_fits :
    (r : ℕ)
    → r < 16
    → (any (λ d. d == hex_digit r) (codes "0123456789abcdef") ≡ true)
      × (any (λ d. d == hex_digit (bit_or (bit_and r 3) 8)) (codes "89ab") ≡ true)
hex_fits r h =
    (and-eq-true_iff (any (λ d. d == hex_digit r) (codes "0123456789abcdef"))
        (any (λ d. d == hex_digit (bit_or (bit_and r 3) 8)) (codes "89ab"))).0
      (holds_below-at _ 16 digits_table r h)

replacement-Fits :
    (c k : ℕ) → k < 2 ^ 53 → (c == b'x' || c == b'y') ≡ true → Fits c (replacement c k)
unfolding replacement
replacement-Fits c k h e = elim (Bool-cases (c == b'x')) [
  | inl x ↦ rw x (hex_fits (draw 4 k) (draw_four-lt k h)).0
  | inr not_x ↦
      let y : (c == b'y') ≡ true = ground arith in
      rw (not_x, y) (hex_fits (draw 4 k) (draw_four-lt k h)).1
]

fill_template-Fits :
    (t : List ℕ) (i : ℕ) (s : Stream) → IsRandom s → FitsAll t (fill_template t i s)
unfolding fill_template
fill_template-Fits [] i s h = tt
fill_template-Fits (c ∷ t) i s h = elim (Bool-cases (c == b'x' || c == b'y')) [
  | inl hit ↦ rw hit (replacement-Fits c (s i) (h i) hit, fill_template-Fits t (suc i) s h)
  | inr miss ↦ rw miss (ground arith, fill_template-Fits t i s h)
]

-- Whatever the random numbers are, the UUID has the form of version 4: lower-case hexadecimal
-- digits and dashes at the places of the template, a 4 at the head of the third group, and one of
-- 8, 9, a and b at the head of the fourth.
pub random_uuid-Fits : (s : Stream) → IsRandom s → FitsAll template (random_uuid s)
unfolding random_uuid
random_uuid-Fits s h = fill_template-Fits template 0 s h
