-- ===== src/Shim/Headers/Ascii.antt =====
-- A lowering of ASCII letters only, which has what `Lowering` asks for.
use ttlive_cpp.Prelude.{◌≡◌, refl, [], ◌∷◌, map, arith, ℕ}
use ttlive_cpp.Js.Text.{Text}
use ttlive_cpp.Shim.Headers.{Lowering, lower_ascii}
use mathlib.Core.Path.{ap₂}

once_lowered : (c : ℕ) → lower_ascii (lower_ascii c) ≡ lower_ascii c
once_lowered c = ground arith

pub all_lowered : (s : Text) → map lower_ascii (map lower_ascii s) ≡ map lower_ascii s
all_lowered [] = refl
all_lowered (c ∷ s) = ap₂ (λ d t. d ∷ t) (once_lowered c) (all_lowered s)

abbrev pub ascii_only : Lowering
ascii_only = record {
  to_lower = map lower_ascii;
  to_lower_idem = all_lowered;
  to_lower_ascii = λ s h. refl;
}
