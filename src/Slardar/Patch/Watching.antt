-- ===== src/Slardar/Patch/Watching.antt =====
-- Wrappers come off in any order.
use mathlib.Core.Path.{subst}
use ttlive_cpp.Prelude.{
  ℕ, suc, ◌<◌, ◌≡◌, refl, sym, ap, ◌∙◌, true, false, List, [], ◌∷◌, ◌==◌, if◌then◌else◌, length,
  arith, if_has, ==_iff,
}
use ttlive_cpp.Slardar.Util.{without}
use ttlive_cpp.Slardar.Patch.{
  Method, native, wrapper, Patch, Slot, untouched, is_wrapper, patch, deactivate, restore,
  restore_unless, seen_by, Change, wrap, unwrap, change, change_all,
}
use ttlive_cpp.Slardar.Patch.Laws.{
  IsOlder, IsBuilt, IsOlder-le, is_wrapper-eq, old_of-IsOlder, seen_by-old_of, seen_by-deactivate,
  length-deactivate,
}

-- What is true of a slot whose wrappers came and went.
record IsSound (s : Slot) : Type 0 where
  newest : IsOlder (length s.patches) s.current
  built : IsBuilt s.patches

deactivate-IsBuilt : (k : ℕ) (ps : List Patch) → IsBuilt ps → IsBuilt (deactivate k ps)
unfolding deactivate
deactivate-IsBuilt k [] b = tt
deactivate-IsBuilt k (p ∷ ps) b =
    (subst (λ n. IsOlder n p.old) (sym (length-deactivate k ps)) b.0, deactivate-IsBuilt k ps b.1)

wrapper-lt : (n k : ℕ) (m : Method) → is_wrapper m k ≡ true → IsOlder n m → k < n
wrapper-lt n k native h o = cc
wrapper-lt n k (wrapper j) h o = ground arith

abbrev pub seen : Slot → List ℕ
seen s = seen_by s.patches s.current

record Becomes (n : ℕ) (xs : List ℕ) (s : Slot) : Type 0 where
  sound : IsSound s
  count : length s.patches ≡ n
  sees : seen s ≡ xs

restore-Becomes :
    (k : ℕ) (s : Slot)
    → IsSound s
    → Becomes (length s.patches) (without (◌==◌) (seen s) k) (restore k s)
unfolding restore
restore-Becomes k s v =
    if_has (Becomes (length s.patches) (without (◌==◌) (seen s) k)) (is_wrapper s.current k)
      (λ h.
        let lt = wrapper-lt (length s.patches) k s.current h v.newest in
        record {
          sound = record {
            newest = IsOlder-le _ k _ (old_of-IsOlder k s.patches v.built lt) lt;
            built = v.built;
          };
          count = refl;
          sees =
              seen_by-old_of k s.patches v.built lt
              ∙ ap (λ m. without (◌==◌) (seen_by s.patches m) k)
                  (sym (is_wrapper-eq s.current k h));
        })
      (λ _. record {
        sound = record {
          newest = subst (λ n. IsOlder n s.current) (sym (length-deactivate k s.patches)) v.newest;
          built = deactivate-IsBuilt k s.patches v.built;
        };
        count = length-deactivate k s.patches;
        sees = seen_by-deactivate k s.patches s.current;
      })

patch-Becomes :
    (s : Slot) → IsSound s → Becomes (suc (length s.patches)) (length s.patches ∷ seen s) (patch s)
unfolding patch seen_by
patch-Becomes s v = record {
  sound = record { newest = omega arith; built = (v.newest, v.built) };
  count = refl;
  sees = rw ((==_iff (length s.patches) (length s.patches)).1 refl) refl;
}

-- Who watches after a list of changes: `n` wrappers have been made, and `xs` are on, the outermost
-- first.
abbrev pub watching : ℕ → List ℕ → List Change → List ℕ
watching n xs [] = xs
watching n xs (wrap ∷ cs) = watching (suc n) (n ∷ xs) cs
watching n xs (unwrap keep k ∷ cs) = watching n (if keep then xs else without (◌==◌) xs k) cs

seen-watching :
    (cs : List Change) (s : Slot)
    → IsSound s
    → seen (change_all cs s) ≡ watching (length s.patches) (seen s) cs
unfolding change_all change restore_unless
seen-watching [] s v = refl
seen-watching (wrap ∷ cs) s v =
    let b = patch-Becomes s v in
    seen-watching cs (patch s) b.sound
    ∙ ap (λ n. watching n (seen (patch s)) cs) b.count
    ∙ ap (λ xs. watching (suc (length s.patches)) xs cs) b.sees
seen-watching (unwrap true k ∷ cs) s v = seen-watching cs s v
seen-watching (unwrap false k ∷ cs) s v =
    let b = restore-Becomes k s v in
    seen-watching cs (restore k s) b.sound
    ∙ ap (λ n. watching n (seen (restore k s)) cs) b.count
    ∙ ap (λ xs. watching (length s.patches) xs cs) b.sees

-- However wrappers were put on a method and taken off again, in whatever order: a call goes through
-- those that are still on, the latest first, and through no other, before it reaches the method.
pub change_all-watching : (cs : List Change) → seen (change_all cs untouched) ≡ watching 0 [] cs
unfolding seen_by
change_all-watching cs = seen-watching cs untouched (record { newest = tt; built = tt })
