-- ===== src/Shim/SafeProxy/Laws.antt =====
-- What can be read from a safe proxy.
use ttlive_cpp.Prelude.{ℕ, ◌≡◌, refl, ◌⊎◌, inl, inr, true, some, codes, arith}
use ttlive_cpp.Js.Text.{Text}
use ttlive_cpp.Shim.SafeProxy.{
  undefined, Key, named, iterator, Target, plain, get, get_named, is_name,
}

by_name :
    (describe : ℕ → Text) (t : Target) (k : Key)
    → get_named describe t k ≡ plain undefined
    → (is_name k (codes "then") ≡ true) ⊎ (t.lookup k ≡ some undefined)
by_name describe t k e = ground arith

-- `undefined` is read only for `then`, for `Symbol.iterator`, and where the target itself has a
-- property whose value is `undefined`; every other unknown name reads as a proxy.
pub get-undefined :
    (describe : ℕ → Text) (t : Target) (k : Key)
    → get describe t k ≡ plain undefined
    → (k ≡ iterator) ⊎ ((is_name k (codes "then") ≡ true) ⊎ (t.lookup k ≡ some undefined))
unfolding get
get-undefined describe t Key.to_primitive e = cc
get-undefined describe t iterator e = inl refl
get-undefined describe t (named k) e = inr (by_name describe t (named k) e)
get-undefined describe t (Key.symbol n) e = inr (by_name describe t (Key.symbol n) e)
