-- ===== src/Shim/Canvas.antt =====
-- The drawing contexts of js/hybrid-fake-dom.js: the numbers of `FakeCanvasRenderingContext2D`, and
-- the parameters, extensions and pixels of `createFakeWebGLContext`.
pub mod Laws
mod Tests
use ttlive_cpp.Prelude.{
  ℕ, zero, suc, ◌*◌, List, [], ◌∷◌, map, Bool, true, false, ◌==◌, if◌then◌else◌, codes, Option,
  none, some, length,
}
use ttlive_cpp.Js.Text.{Text, same}

-- The width of `measureText`; a missing text is empty.
abbrev pub text_width : Option Text → ℕ
text_width none = 0
text_width (some s) = length s * 6

pub record ImageData : Type 0 where
  pub width : ℕ
  pub height : ℕ
  pub data_bytes : List ℕ

unfoldable pub zeros : ℕ → List ℕ
zeros zero = []
zeros (suc n) = 0 ∷ zeros n

-- `createImageData`, and `getImageData` whatever its corner: every byte is 0.
unfoldable pub image_data : ℕ → ℕ → ImageData
image_data w h = record { width = w; height = h; data_bytes = zeros (w * h * 4) }

-- `one_to_one` is the `Float32Array` of two ones.
pub data Parameter : Type 0 where
  string : Text → Parameter
  number : ℕ → Parameter
  one_to_one : Parameter

abbrev pub params : List (ℕ × Parameter)
params =
    (7936, string (codes "WebKit"))
    ∷ (7937, string (codes "WebKit WebGL"))
    ∷ (7938, string (codes "WebGL 1.0 (OpenGL ES 2.0 Chromium)"))
    ∷ (35724, string (codes "WebGL GLSL ES 1.0 (OpenGL ES GLSL ES 1.0 Chromium)"))
    ∷ (37445, string (codes "Google Inc. (Apple)"))
    ∷ (
      37446,
      string (codes "ANGLE (Apple, ANGLE Metal Renderer: Apple M1 Pro, Unspecified Version)"),
    )
    ∷ (3379, number 16384)
    ∷ (34076, number 16384)
    ∷ (34024, number 16384)
    ∷ (36347, number 1024)
    ∷ (36348, number 4096)
    ∷ (36349, number 1024)
    ∷ (34921, number 16)
    ∷ (35660, number 16)
    ∷ (35661, number 32)
    ∷ (34930, number 16)
    ∷ (7939, string (codes "WebGL 1.0"))
    ∷ (3410, number 8)
    ∷ (3411, number 8)
    ∷ (3412, number 8)
    ∷ (3413, number 8)
    ∷ (3414, number 24)
    ∷ (3415, number 8)
    ∷ (33901, one_to_one)
    ∷ (33902, one_to_one)
    ∷ (34047, number 16)
    ∷ []

unfoldable pub parameter_in : List (ℕ × Parameter) → ℕ → Option Parameter
parameter_in [] name = none
parameter_in ((n, p) ∷ ps) name = if n == name then some p else parameter_in ps name

-- `getParameter` of a number; `none` is `null`.
unfoldable pub get_parameter : ℕ → Option Parameter
get_parameter name = parameter_in params name

abbrev pub extensions : List Text
extensions =
    codes "ANGLE_instanced_arrays"
    ∷ codes "EXT_blend_minmax"
    ∷ codes "EXT_color_buffer_half_float"
    ∷ codes "EXT_disjoint_timer_query"
    ∷ codes "EXT_float_blend"
    ∷ codes "EXT_frag_depth"
    ∷ codes "EXT_shader_texture_lod"
    ∷ codes "EXT_texture_compression_bptc"
    ∷ codes "EXT_texture_compression_rgtc"
    ∷ codes "EXT_texture_filter_anisotropic"
    ∷ codes "EXT_sRGB"
    ∷ codes "KHR_parallel_shader_compile"
    ∷ codes "OES_element_index_uint"
    ∷ codes "OES_fbo_render_mipmap"
    ∷ codes "OES_standard_derivatives"
    ∷ codes "OES_texture_float"
    ∷ codes "OES_texture_float_linear"
    ∷ codes "OES_texture_half_float"
    ∷ codes "OES_texture_half_float_linear"
    ∷ codes "OES_vertex_array_object"
    ∷ codes "WEBGL_color_buffer_float"
    ∷ codes "WEBGL_compressed_texture_s3tc"
    ∷ codes "WEBGL_compressed_texture_s3tc_srgb"
    ∷ codes "WEBGL_debug_renderer_info"
    ∷ codes "WEBGL_debug_shaders"
    ∷ codes "WEBGL_depth_texture"
    ∷ codes "WEBGL_draw_buffers"
    ∷ codes "WEBGL_lose_context"
    ∷ codes "WEBGL_multi_draw"
    ∷ []

-- `indexOf` found something.
unfoldable pub listed : List Text → Text → Bool
listed [] name = false
listed (x ∷ xs) name = if same x name then true else listed xs name

-- What an extension's object holds: the names of its constants and their values.
abbrev pub debug_constants : List (Text × ℕ)
debug_constants =
    (codes "UNMASKED_VENDOR_WEBGL", 37445) ∷ (codes "UNMASKED_RENDERER_WEBGL", 37446) ∷ []

abbrev pub anisotropy_constants : List (Text × ℕ)
anisotropy_constants =
    (codes "MAX_TEXTURE_MAX_ANISOTROPY_EXT", 34047)
    ∷ (codes "TEXTURE_MAX_ANISOTROPY_EXT", 34046)
    ∷ []

unfoldable pub get_extension : Text → Option (List (Text × ℕ))
get_extension name =
    if same name (codes "WEBGL_debug_renderer_info")
    then some debug_constants
    else if same name (codes "EXT_texture_filter_anisotropic")
    then some anisotropy_constants
    else if listed extensions name
    then some []
    else none

-- `readPixels` clears the whole of the buffer that it is given.
unfoldable pub read_pixels : List ℕ → List ℕ
read_pixels pixels = map (λ _. 0) pixels
