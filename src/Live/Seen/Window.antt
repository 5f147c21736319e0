-- ===== src/Live/Seen/Window.antt =====
-- The set and the deque hold the same ids, the last 500000 that were remembered.
use ttlive_cpp.Prelude.{
  ℕ, zero, suc, ◌-◌, ◌≤◌, ◌<◌, ◌≡◌, refl, sym, ap, ◌∙◌, inl, inr, false, not, ◌||◌, ◌&&◌, List, [],
  ◌∷◌, ◌++◌, length, length-append, if◌then◌else◌, ltb, arith, Bool-cases,
}
use ttlive_cpp.Prelude.Int.{ℤ, same_int, same_int_iff}
use ttlive_cpp.Live.Seen.{Seen, contains, insert, erase, remember_id, forget_front, max_seen_ids}

pub contains-push :
    (id y : ℤ) (xs : List ℤ) → contains id (xs ++ (y ∷ [])) ≡ (contains id xs || same_int y id)
unfolding contains
contains-push id y [] = ground arith
contains-push id y (x ∷ xs) = ground (arith, contains-push id y xs)

contains-erase :
    (id y : ℤ) (xs : List ℤ) → contains id (erase y xs) ≡ (not (same_int y id) && contains id xs)
unfolding contains erase
contains-erase id y [] = ground arith
contains-erase id y (x ∷ xs) =
    ground (arith, contains-erase id y xs, same_int_iff x y, same_int_iff x id, same_int_iff y id)

unfoldable pub Distinct : List ℤ → Type 0
Distinct [] = Unit {0}
Distinct (x ∷ xs) = (contains x xs ≡ false) × Distinct xs

Distinct-push :
    (y : ℤ) (xs : List ℤ) → contains y xs ≡ false → Distinct xs → Distinct (xs ++ (y ∷ []))
unfolding Distinct contains
Distinct-push y [] h d = (refl, tt)
Distinct-push y (x ∷ xs) h d = (
  ground (arith, contains-push x y xs, same_int_iff x y, same_int_iff y x),
  Distinct-push y xs (ground arith) d.1,
)

-- The set and the deque hold the same ids, each once, and not more than 500000 of them.
abbrev pub IsSeen : Seen → Type 0
IsSeen s =
    ((id : ℤ) → contains id s.ids ≡ contains id s.order)
    × (Distinct s.order × (length s.order ≤ max_seen_ids))

forget_front-IsSeen :
    (s : Seen) (order : List ℤ)
    → ((id : ℤ) → contains id s.ids ≡ contains id order)
    → Distinct order
    → length order ≤ suc max_seen_ids
    → max_seen_ids < length order
    → IsSeen (forget_front s order)
unfolding Distinct contains
forget_front-IsSeen s [] same d long full = absurd (omega arith)
forget_front-IsSeen s (x ∷ xs) same d long full = (
  λ id. ground (arith, contains-erase id x s.ids, same id, same_int_iff x id, d.0),
  (d.1, omega arith),
)

-- Remembering a new id keeps the set and the deque in step.
pub remember_id-IsSeen :
    (id : ℤ) (s : Seen) → contains id s.ids ≡ false → IsSeen s → IsSeen (remember_id id s)
unfolding remember_id insert
remember_id-IsSeen id s new (same, (d, few)) =
    let order = s.order ++ (id ∷ []) in
    let added : Seen = record { ids = id ∷ s.ids; order = order } in
    let agree : ((j : ℤ) → contains j added.ids ≡ contains j order) =
      λ j. unfold contains in ground (arith, contains-push j id s.order, same j) in
    let distinct = Distinct-push id s.order (sym (same id) ∙ new) d in
    let long = length-append s.order (id ∷ []) in
    rw new (elim (Bool-cases (ltb max_seen_ids (length order))) [
      | inl full ↦
          rw full (forget_front-IsSeen added order agree distinct (omega arith) (ground arith))
      | inr fits ↦ rw fits (agree, (distinct, ground arith))
    ])

abbrev drop : ℕ → List ℤ → List ℤ
drop zero xs = xs
drop (suc k) [] = []
drop (suc k) (x ∷ xs) = drop k xs

-- The last 500000 of a history of ids.
unfoldable pub recent : List ℤ → List ℤ
recent h = drop (length h - max_seen_ids) h

drop-push :
    (k : ℕ) (h : List ℤ) (x : ℤ) → k ≤ length h → drop k (h ++ (x ∷ [])) ≡ drop k h ++ (x ∷ [])
drop-push zero h x le = refl
drop-push (suc k) [] x le = absurd (omega arith)
drop-push (suc k) (y ∷ h) x le = drop-push k h x (omega arith)

abbrev tail : List ℤ → List ℤ
tail [] = []
tail (x ∷ xs) = xs

drop-suc : (k : ℕ) (h : List ℤ) → drop (suc k) h ≡ tail (drop k h)
drop-suc zero [] = refl
drop-suc zero (x ∷ h) = refl
drop-suc (suc k) [] = refl
drop-suc (suc k) (x ∷ h) = drop-suc k h

length-drop : (k : ℕ) (h : List ℤ) → length (drop k h) ≡ length h - k
length-drop zero h = omega arith
length-drop (suc k) [] = omega arith
length-drop (suc k) (x ∷ h) = omega (arith, length-drop k h)

pub recent-short : (h : List ℤ) → length h ≤ max_seen_ids → recent h ≡ h
unfolding recent
recent-short h le =
    let none_over : length h - max_seen_ids ≡ 0 = omega arith in ap (λ k. drop k h) none_over

-- The window of a history with one more id is the old window, pushed and cut.
recent-push :
    (h : List ℤ) (x : ℤ)
    → recent (h ++ (x ∷ [])) ≡ (
        if ltb max_seen_ids (length (recent h ++ (x ∷ [])))
        then tail (recent h ++ (x ∷ []))
        else recent h ++ (x ∷ []))
unfolding recent
recent-push h x =
    let k = length h - max_seen_ids in
    let pushed = drop-push k h x (omega arith) in
    let long = length-append (drop k h) (x ∷ []) in
    let size = length-append h (x ∷ []) in
    let left = length-drop k h in
    elim (Bool-cases (ltb max_seen_ids (length (drop k h ++ (x ∷ []))))) [
      | inl full ↦
          let next : length (h ++ (x ∷ [])) - max_seen_ids ≡ suc k = ground arith in
          rw (full, next) (drop-suc k (h ++ (x ∷ [])) ∙ ap tail pushed)
      | inr fits ↦
          let same : length (h ++ (x ∷ [])) - max_seen_ids ≡ k = ground arith in
          rw (fits, same) pushed
    ]

forget_front-order :
    (s : Seen) (order : List ℤ) → s.order ≡ order → (forget_front s order).order ≡ tail order
forget_front-order s [] e = e
forget_front-order s (x ∷ xs) e = refl

abbrev cut : List ℤ → List ℤ
cut order = if ltb max_seen_ids (length order) then tail order else order

remember_id-order : (id : ℤ) (s : Seen) → (remember_id id s).order ≡ cut (s.order ++ (id ∷ []))
unfolding remember_id
remember_id-order id s =
    let order = s.order ++ (id ∷ []) in
    let added : Seen = record { ids = insert id s.ids; order = order } in
    elim (Bool-cases (ltb max_seen_ids (length order))) [
      | inl full ↦ rw full (forget_front-order added order refl)
      | inr fits ↦ rw fits
    ]

-- The deque is the window of the ids remembered so far.
pub remember_id-recent :
    (id : ℤ) (s : Seen) (h : List ℤ)
    → s.order ≡ recent h
    → (remember_id id s).order ≡ recent (h ++ (id ∷ []))
remember_id-recent id s h e =
    remember_id-order id s ∙ ap (λ order. cut (order ++ (id ∷ []))) e ∙ sym (recent-push h id)
