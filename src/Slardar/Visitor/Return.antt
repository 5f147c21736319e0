-- ===== src/Slardar/Visitor/Return.antt =====
-- Which ids a visitor has who comes back, over the base64 of the fake browser.
use ttlive_cpp.Prelude.{
  ℕ, ◌+◌, ◌%◌, ◌<◌, ◌≡◌, ◌≢◌, refl, ap, ◌∙◌, Bool, true, false, not, ◌&&◌, List, [], ◌∷◌, ◌++◌,
  none, some, if_true, if_false, if◌then◌else◌, leb, ◌==◌, arith, length, All, inl, inr,
  holds_below, holds_below-at, get_or, Bool-cases,
}
use ttlive_cpp.Prelude.Bits.{and_mask}
use ttlive_cpp.Js.Text.{Text, same_refl}
use ttlive_cpp.Js.Object.{Dict, own, own-put}
use ttlive_cpp.Shim.Base64.{alphabet, btoa, char_at}
use ttlive_cpp.Shim.Base64.Encode.{IsByte}
use ttlive_cpp.Shim.Base64.Decode.{read_back, atob-btoa}
use ttlive_cpp.Slardar.Visitor.{
  Ids, Stored, Browser, save, load, unexpired, is_plain, migrate, or_fresh, completed, ids_of,
  stored_ids, visit, visit_all,
}

or_fresh_kept : (t fresh : Text) → t ≢ [] → or_fresh (some t) fresh ≡ t
or_fresh_kept [] fresh h = elim (h refl) [ ]
or_fresh_kept (c ∷ s) fresh h = refl

-- No letter of base64 is a brace.
brace_table : holds_below (λ k. not (get_or alphabet k 0 == b'{')) 64 ≡ true
unfolding holds_below
brace_table = refl

char_at-brace : (k : ℕ) → (char_at k == b'{') ≡ false
unfolding char_at
char_at-brace k = ground (
  arith,
  and_mask 6 k,
  holds_below-at (λ k. not (get_or alphabet k 0 == b'{')) 64 brace_table (k % 64) (omega arith),
)

btoa-plain : (t : Text) → is_plain (btoa t) ≡ false
unfolding btoa
btoa-plain [] = refl
btoa-plain (a ∷ []) = char_at-brace _
btoa-plain (a ∷ b ∷ []) = char_at-brace _
btoa-plain (a ∷ b ∷ c ∷ t) = char_at-brace _

-- Is the text made of whole groups of three bytes?
abbrev pub is_whole : Text → Bool
is_whole t = length t % 3 == 0

whole : (t : Text) → is_whole t ≡ true → read_back t ≡ t
whole [] h = refl
whole (a ∷ []) h = cc
whole (a ∷ b ∷ []) h = cc
whole (a ∷ b ∷ c ∷ t) h = ap (λ l. a ∷ b ∷ c ∷ l) (whole t (ground (arith, h)))

abbrev pub spoiled : Text
spoiled = 255 ∷ 255 ∷ 255 ∷ []

broken : (t : Text) → is_whole t ≡ false → (p : Text) × (read_back t ≡ p ++ spoiled)
broken [] h = cc
broken (a ∷ []) h = ([], refl)
broken (a ∷ b ∷ []) h = ([], refl)
broken (a ∷ b ∷ c ∷ t) h =
    let (p, e) = broken t (ground (arith, h)) in (a ∷ b ∷ c ∷ p, ap (λ l. a ∷ b ∷ c ∷ l) e)

-- Neither id is empty.
abbrev pub HasIds : Ids → Type 0
HasIds i = (i.user ≢ []) × (i.device ≢ [])

module _ (b : Browser) (ttl : ℕ) where
  -- The ids of the visits after one with the ids `i`, whose record expires at `e`: they are kept if the
  -- text of the record is made of whole groups of three bytes and has not expired, and are new else.
  abbrev pub is_kept : Ids → ℕ → ℕ → Bool
  is_kept i e now = is_whole (b.text (stored_ids i) e) && leb now e

  abbrev pub next_ids : Ids → ℕ → List (ℕ × Ids) → List Ids
  next_ids i e [] = []
  next_ids i e ((now, fresh) ∷ vs) =
      (if is_kept i e now then i else fresh)
      ∷ next_ids (if is_kept i e now then i else fresh) (now + ttl) vs

module _ (b : Browser) (key : Text) (ttl : ℕ)
    (bytes : (s : Stored) (e : ℕ) → All IsByte (b.text s e))
    (reads : (s : Stored) (e : ℕ) → b.read (b.text s e) ≡ some (s, some e))
    (refuses : (p : Text) → b.read (p ++ spoiled) ≡ none) (takes : b.writable ≡ true)
    (lasts : 0 < ttl) where
  save-own :
      (s : Stored) (now : ℕ) (d : Dict Text)
      → own key (save b key s ttl now d) ≡ some (btoa (b.text s (now + ttl)))
  unfolding save
  save-own s now d =
      let on : (ttl == 0) ≡ false = ground arith in
      ap (own key) (if_false d on ∙ if_true d takes)
      ∙ own-put key key (btoa (b.text s (now + ttl))) d
      ∙ if_true _ (same_refl key)

  migrate-encoded :
      (s : Stored) (e now : ℕ) (d : Dict Text)
      → own key d ≡ some (btoa (b.text s e))
      → migrate b key ttl now d ≡ d
  unfolding migrate
  migrate-encoded s e now d here = rw here (if_false _ (btoa-plain (b.text s e)))

  read-back :
      (s : Stored) (e now : ℕ)
      → unexpired now (b.read (read_back (b.text s e)))
        ≡ (if is_whole (b.text s e) && leb now e then some s else none)
  read-back s e now = elim (Bool-cases (is_whole (b.text s e))) [
    | inl w ↦ rw (whole (b.text s e) w) (rw (reads s e) (rw w refl))
    | inr w ↦
        let (p, is_broken) = broken (b.text s e) w in rw is_broken (rw (refuses p) (rw w refl))
  ]

  load-saved :
      (s : Stored) (e now : ℕ) (d : Dict Text)
      → own key d ≡ some (btoa (b.text s e))
      → load b key now d ≡ (if is_whole (b.text s e) && leb now e then some s else none)
  unfolding load
  load-saved s e now d here =
      rw here (
        ap (λ t. unexpired now (b.read t)) (atob-btoa (b.text s e) (bytes s e)) ∙ read-back s e now)

  completed-if :
      (kept : Bool) (i fresh : Ids)
      → HasIds i
      → completed (if kept then some (stored_ids i) else none) fresh ≡ (if kept then i else fresh)
  completed-if true i fresh h =
      rw (or_fresh_kept i.user fresh.user h.0) (rw (or_fresh_kept i.device fresh.device h.1) refl)
  completed-if false i fresh h = refl

  ids_of-saved :
      (i fresh : Ids) (e now : ℕ) (d : Dict Text)
      → HasIds i
      → own key d ≡ some (btoa (b.text (stored_ids i) e))
      → ids_of b key ttl now fresh d ≡ (if is_kept b ttl i e now then i else fresh, d)
  unfolding ids_of
  ids_of-saved i fresh e now d h here =
      let on : (ttl == 0) ≡ false = ground arith in
      if_false _ on
      ∙ ap (λ k. (completed (load b key now k) fresh, k))
          (migrate-encoded (stored_ids i) e now d here)
      ∙ ap (λ o. (completed o fresh, d)) (load-saved (stored_ids i) e now d here)
      ∙ ap (λ j. (j, d)) (completed-if (is_kept b ttl i e now) i fresh h)

  one_has :
      (kept : Bool) (i fresh : Ids) → HasIds i → HasIds fresh → HasIds (if kept then i else fresh)
  one_has true i fresh h k = h
  one_has false i fresh h k = k

  visit_all-saved :
      (i : Ids) (vs : List (ℕ × Ids)) (e : ℕ) (d : Dict Text)
      → HasIds i
      → All (λ v. HasIds v.1) vs
      → own key d ≡ some (btoa (b.text (stored_ids i) e))
      → visit_all b key ttl vs d ≡ next_ids b ttl i e vs
  unfolding visit_all visit
  visit_all-saved i [] e d h hs here = refl
  visit_all-saved i ((now, fresh) ∷ vs) e d h (k, hs) here =
      let j = if is_kept b ttl i e now then i else fresh in
      ap
        (λ (r : Ids × Dict Text).
          r.0 ∷ visit_all b key ttl vs (save b key (stored_ids r.0) ttl now r.1))
        (ids_of-saved i fresh e now d h here)
      ∙ ap (λ is. j ∷ is)
          (visit_all-saved j vs (now + ttl) (save b key (stored_ids j) ttl now d)
            (one_has (is_kept b ttl i e now) i fresh h k) hs (save-own (stored_ids j) now d))

  -- Where the storage takes what it is given, and JSON reads back what it wrote and refuses a text that
  -- ends in three bytes 0xff, and ids are kept for some time and are never empty: on each visit after the
  -- first the visitor has the ids of the visit before if that one's record has not expired and its
  -- text is a multiple of three bytes long, and new ids otherwise. The fake browser's `atob` spoils
  -- the other records.
  pub visit_all-next :
      (now : ℕ) (fresh : Ids) (vs : List (ℕ × Ids)) (d : Dict Text)
      → HasIds (ids_of b key ttl now fresh d).0
      → All (λ v. HasIds v.1) vs
      → visit_all b key ttl ((now, fresh) ∷ vs) d
        ≡ (ids_of b key ttl now fresh d).0
          ∷ next_ids b ttl (ids_of b key ttl now fresh d).0 (now + ttl) vs
  unfolding visit_all visit
  visit_all-next now fresh vs d h hs =
      let r = ids_of b key ttl now fresh d in
      ap (λ is. r.0 ∷ is)
        (visit_all-saved r.0 vs (now + ttl) (save b key (stored_ids r.0) ttl now r.1) h hs
          (save-own (stored_ids r.0) now r.1))
