-- ===== src/Shim/Base64/Tests.antt =====
-- Concrete runs of `atob` and `btoa`.
use ttlive_cpp.Prelude.{◌≡◌, refl, ◌∷◌, [], codes, arith}
use ttlive_cpp.Shim.Base64.Decode.{atob-btoa}
use ttlive_cpp.Shim.Base64.{char_at, join_units, decode_loop, strip_pad, atob, btoa}

btoa_hello : btoa (codes "Hello") ≡ codes "SGVsbG8="
unfolding btoa char_at join_units
btoa_hello = refl

atob_full : atob (codes "SGVs") ≡ codes "Hel"
unfolding atob decode_loop strip_pad
atob_full = refl

-- The last, padded group of "SGVsbG8=" is read as three bytes 0xff.
atob_padded : atob (codes "SGVsbG8=") ≡ b'H' ∷ b'e' ∷ b'l' ∷ 255 ∷ 255 ∷ 255 ∷ []
unfolding atob decode_loop strip_pad
atob_padded = refl

atob-btoa_example : atob (btoa (codes "Hello")) ≡ b'H' ∷ b'e' ∷ b'l' ∷ 255 ∷ 255 ∷ 255 ∷ []
atob-btoa_example =
    atob-btoa (codes "Hello")
      (omega arith, (omega arith, (omega arith, (omega arith, (omega arith, tt)))))
