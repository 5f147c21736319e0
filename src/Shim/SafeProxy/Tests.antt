-- ===== src/Shim/SafeProxy/Tests.antt =====
-- A proxy over an object with one property.
use ttlive_cpp.Prelude.{◌≡◌, refl, [], ◌⊎◌, codes, true, false, some, none}
use ttlive_cpp.Js.Text.{same}
use ttlive_cpp.Shim.SafeProxy.{Target, named, iterator, undefined, get, is_name}
use ttlive_cpp.Shim.SafeProxy.Laws.{get-undefined}

abbrev nothing : Target
nothing = record { is_function = false; lookup = λ k. none; path = some (codes "navigator") }

-- `then` is the name that keeps a proxy from being taken for a promise.
get-undefined_case :
    (named (codes "then") ≡ iterator)
    ⊎ ((is_name (named (codes "then")) (codes "then") ≡ true)
        ⊎ (nothing.lookup (named (codes "then")) ≡ some undefined))
unfolding get same
get-undefined_case = get-undefined (λ n. []) nothing (named (codes "then")) refl
