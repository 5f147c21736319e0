-- ===== src/Slardar/Patch/Laws.antt =====
-- Taking one wrapper off, wherever it stands.
use mathlib.Core.Path.{subst}
use ttlive_cpp.Prelude.{
  ℕ, suc, ◌<◌, ◌≡◌, refl, sym, ap, ◌∙◌, Bool, true, false, not, ◌&&◌, List, [], ◌∷◌, ◌==◌, length,
  arith, All, if_has, if_true, if_false, Bool-cases, inl, inr, ==_iff,
}
use ttlive_cpp.Slardar.Util.{without}
use ttlive_cpp.Slardar.Patch.{
  Method, native, wrapper, Patch, is_wrapper, old_of, deactivate, seen_by, chosen,
}

abbrev AllBelow : ℕ → List ℕ → Type 0
AllBelow n = All λ x. x < n

AllBelow-suc : (n : ℕ) (xs : List ℕ) → AllBelow n xs → AllBelow (suc n) xs
AllBelow-suc n [] h = tt
AllBelow-suc n (x ∷ xs) h = (omega arith, AllBelow-suc n xs h.1)

Below : ℕ → List ℕ → Type 0
Below = AllBelow

chosen-Below :
    (t a : Bool) (n : ℕ) (xs ys : List ℕ)
    → Below n xs
    → Below n ys
    → Below (suc n) (chosen t a n xs ys)
unfolding Below
chosen-Below false a n xs ys h k = AllBelow-suc n ys k
chosen-Below true false n xs ys h k = AllBelow-suc n xs h
chosen-Below true true n xs ys h k = (omega arith, AllBelow-suc n xs h)

seen-Below : (ps : List Patch) (m : Method) → Below (length ps) (seen_by ps m)
unfolding seen_by Below
seen-Below [] m = tt
seen-Below (p ∷ ps) m =
    chosen-Below (is_wrapper m (length ps)) p.active (length ps) (seen_by ps p.old) (seen_by ps m)
      (seen-Below ps p.old) (seen-Below ps m)

without_absent : (k : ℕ) (xs : List ℕ) → AllBelow k xs → without (◌==◌) xs k ≡ xs
unfolding without
without_absent k [] h = refl
without_absent k (x ∷ xs) h = ground (arith, without_absent k xs)

pub length-deactivate : (k : ℕ) (ps : List Patch) → length (deactivate k ps) ≡ length ps
unfolding deactivate
length-deactivate k [] = refl
length-deactivate k (p ∷ ps) = ap suc (length-deactivate k ps)

chosen-without :
    (t a : Bool) (n k : ℕ) (xs ys : List ℕ)
    → AllBelow n xs
    → chosen t (a && not (n == k)) n (without (◌==◌) xs k) (without (◌==◌) ys k)
      ≡ without (◌==◌) (chosen t a n xs ys) k
unfolding without
chosen-without false a n k xs ys h = refl
chosen-without true false n k xs ys h = refl
chosen-without true true n k xs ys h = elim (Bool-cases (n == k)) [
  | inl e ↦ rw e (without_absent k xs (subst (λ i. AllBelow i xs) ((==_iff n k).0 e) h))
  | inr e ↦ rw e refl
]

pub seen_by-deactivate :
    (k : ℕ) (ps : List Patch) (m : Method)
    → seen_by (deactivate k ps) m ≡ without (◌==◌) (seen_by ps m) k
unfolding deactivate seen_by Below without
seen_by-deactivate k [] m = refl
seen_by-deactivate k (p ∷ ps) m =
    ap
      (λ n.
        chosen (is_wrapper m n) (p.active && not (length ps == k)) n
          (seen_by (deactivate k ps) p.old) (seen_by (deactivate k ps) m))
      (length-deactivate k ps)
    ∙ ap
        (λ xs.
          chosen (is_wrapper m (length ps)) (p.active && not (length ps == k)) (length ps) xs
            (seen_by (deactivate k ps) m))
        (seen_by-deactivate k ps p.old)
    ∙ ap
        (λ xs.
          chosen (is_wrapper m (length ps)) (p.active && not (length ps == k)) (length ps)
            (without (◌==◌) (seen_by ps p.old) k) xs)
        (seen_by-deactivate k ps m)
    ∙ chosen-without (is_wrapper m (length ps)) p.active (length ps) k (seen_by ps p.old)
        (seen_by ps m) (seen-Below ps p.old)

-- A wrapper wraps a method that was there before it.
abbrev pub IsOlder : ℕ → Method → Type 0
IsOlder n native = Unit {0}
IsOlder n (wrapper j) = j < n

abbrev pub IsBuilt : List Patch → Type 0
IsBuilt [] = Unit {0}
IsBuilt (p ∷ ps) = IsOlder (length ps) p.old × IsBuilt ps

IsOlder-not : (n : ℕ) (m : Method) → IsOlder n m → is_wrapper m n ≡ false
IsOlder-not n native h = refl
IsOlder-not n (wrapper j) h = ground arith

pub IsOlder-le : (n k : ℕ) (m : Method) → IsOlder k m → k < n → IsOlder n m
IsOlder-le n k native h l = tt
IsOlder-le n k (wrapper j) h l = omega arith

pub is_wrapper-eq : (m : Method) (k : ℕ) → is_wrapper m k ≡ true → m ≡ wrapper k
is_wrapper-eq native k h = cc
is_wrapper-eq (wrapper j) k h = ap wrapper ((==_iff j k).0 h)

seen_by-older :
    (p : Patch) (ps : List Patch) (m : Method)
    → IsOlder (length ps) m
    → seen_by (p ∷ ps) m ≡ seen_by ps m
unfolding seen_by
seen_by-older p ps m h =
    ap (λ t. chosen t p.active (length ps) (seen_by ps p.old) (seen_by ps m))
      (IsOlder-not (length ps) m h)

Older : ℕ → Method → Type 0
Older = IsOlder

pub old_of-IsOlder :
    (k : ℕ) (ps : List Patch) → IsBuilt ps → k < length ps → IsOlder k (old_of k ps)
unfolding old_of Older
old_of-IsOlder k [] b h = absurd (omega arith)
old_of-IsOlder k (p ∷ ps) b h =
    if_has (Older k) (length ps == k)
      (λ e. subst (λ n. IsOlder n p.old) ((==_iff (length ps) k).0 e) b.0)
      (λ e. old_of-IsOlder k ps b.1 (ground arith))

own_wrapper :
    (a : Bool) (n : ℕ) (xs ys : List ℕ)
    → AllBelow n xs
    → xs ≡ without (◌==◌) (chosen true a n xs ys) n
unfolding without
own_wrapper false n xs ys h = sym (without_absent n xs h)
own_wrapper true n xs ys h = rw ((==_iff n n).1 refl) refl

at_top :
    (p : Patch) (ps : List Patch)
    → IsOlder (length ps) p.old
    → seen_by (p ∷ ps) p.old ≡ without (◌==◌) (seen_by (p ∷ ps) (wrapper (length ps))) (length ps)
unfolding seen_by Below
at_top p ps h =
    let n = length ps in
    let xs = seen_by ps p.old in
    let ys = seen_by ps (wrapper n) in
    seen_by-older p ps p.old h
    ∙ own_wrapper p.active n xs ys (seen-Below ps p.old)
    ∙ ap (λ t. without (◌==◌) (chosen t p.active n xs ys) n) (sym ((==_iff n n).1 refl))

-- Taking off the wrapper that is called first.
pub seen_by-old_of :
    (k : ℕ) (ps : List Patch)
    → IsBuilt ps
    → k < length ps
    → seen_by ps (old_of k ps) ≡ without (◌==◌) (seen_by ps (wrapper k)) k
unfolding old_of Below
seen_by-old_of k [] b h = absurd (omega arith)
seen_by-old_of k (p ∷ ps) b h = elim (Bool-cases (length ps == k)) [
  | inl e ↦
      ap (seen_by (p ∷ ps)) (if_true _ e)
      ∙ subst (λ j. seen_by (p ∷ ps) p.old ≡ without (◌==◌) (seen_by (p ∷ ps) (wrapper j)) j)
          ((==_iff (length ps) k).0 e) (at_top p ps b.0)
  | inr e ↦
      let lt : k < length ps = ground arith in
      let older = IsOlder-le (length ps) k (old_of k ps) (old_of-IsOlder k ps b.1 lt) lt in
      ap (seen_by (p ∷ ps)) (if_false _ e)
      ∙ seen_by-older p ps (old_of k ps) older
      ∙ seen_by-old_of k ps b.1 lt
      ∙ ap (λ l. without (◌==◌) l k) (sym (seen_by-older p ps (wrapper k) lt))
]
