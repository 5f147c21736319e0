-- ===== src/Live/Seen.antt =====
-- The ids of delivered messages in src/client.cpp: `seen_ids_`, `seen_order_` and `remember_id`.
pub mod Window
use ttlive_cpp.Prelude.{
  ℕ, List, [], ◌∷◌, ◌++◌, Bool, true, false, not, ◌||◌, if◌then◌else◌, ltb, length, keep,
}
use ttlive_cpp.Prelude.Int.{ℤ, same_int}

-- A set of ids is a list of them; the deque has its front at the head.
pub record Seen : Type 0 where
  pub ids : List ℤ
  pub order : List ℤ

abbrev pub max_seen_ids : ℕ
max_seen_ids = 500000

unfoldable pub nothing_seen : Seen
nothing_seen = record { ids = []; order = [] }

unfoldable pub contains : ℤ → List ℤ → Bool
contains id [] = false
contains id (x ∷ xs) = same_int x id || contains id xs

unfoldable pub insert : ℤ → List ℤ → List ℤ
insert id ids = if contains id ids then ids else id ∷ ids

unfoldable pub erase : ℤ → List ℤ → List ℤ
erase id ids = keep (λ x. not (same_int x id)) ids

-- `erase(front())` and `pop_front()`; an empty deque is left alone.
abbrev pub forget_front : Seen → List ℤ → Seen
forget_front s [] = s
forget_front s (x ∷ xs) = record { ids = erase x s.ids; order = xs }

unfoldable pub remember_id : ℤ → Seen → Seen
remember_id id s =
    let order = s.order ++ (id ∷ []) in
    let added : Seen = record { ids = insert id s.ids; order = order } in
    if ltb max_seen_ids (length order) then forget_front added order else added
