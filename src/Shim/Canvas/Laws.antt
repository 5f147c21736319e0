-- ===== src/Shim/Canvas/Laws.antt =====
-- The drawing contexts agree with themselves.
use ttlive_cpp.Prelude.{
  ℕ, zero, suc, ◌*◌, ◌≡◌, refl, sym, ap, ◌∙◌, List, Bool, true, false, Option, none, some, length,
  if_has, codes,
}
use ttlive_cpp.Js.Text.{Text, same, same_iff}
use ttlive_cpp.Shim.Canvas.{zeros, image_data, listed, extensions, get_extension}

length-zeros : (n : ℕ) → length (zeros n) ≡ n
unfolding zeros
length-zeros zero = refl
length-zeros (suc n) = ap suc (length-zeros n)

-- An image holds four bytes for each of its pixels.
pub image_data-length : (w h : ℕ) → length (image_data w h).data_bytes ≡ w * h * 4
unfolding image_data
image_data-length w h = length-zeros (w * h * 4)

abbrev pub is_some : {A : Type 0} → Option A → Bool
is_some none = false
is_some (some x) = true

debug_listed : listed extensions (codes "WEBGL_debug_renderer_info") ≡ true
unfolding listed same
debug_listed = refl

anisotropy_listed : listed extensions (codes "EXT_texture_filter_anisotropic") ≡ true
unfolding listed same
anisotropy_listed = refl

found_if_equal :
    (s t : Text) → same s t ≡ true → listed extensions t ≡ true → true ≡ listed extensions s
found_if_equal s t h k = sym k ∙ ap (listed extensions) (sym ((same_iff s t).0 h))

Agrees : Text → Option (List (Text × ℕ)) → Type 0
Agrees name found = is_some found ≡ listed extensions name

-- An extension is given out exactly where `getSupportedExtensions` lists its name.
pub get_extension-listed : (name : Text) → is_some (get_extension name) ≡ listed extensions name
unfolding get_extension Agrees
get_extension-listed name =
    if_has (Agrees name) (same name (codes "WEBGL_debug_renderer_info"))
      (λ h. found_if_equal name _ h debug_listed)
      (λ _.
        if_has (Agrees name) (same name (codes "EXT_texture_filter_anisotropic"))
          (λ h. found_if_equal name _ h anisotropy_listed)
          (λ _. if_has (Agrees name) (listed extensions name) (λ h. sym h) (λ h. sym h)))
