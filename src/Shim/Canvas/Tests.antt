-- ===== src/Shim/Canvas/Tests.antt =====
-- Questions to the drawing contexts.
use ttlive_cpp.Prelude.{◌≡◌, refl, codes, some}
use ttlive_cpp.Shim.Canvas.{get_parameter, parameter_in, string}

vendor : get_parameter 37445 ≡ some (string (codes "Google Inc. (Apple)"))
unfolding get_parameter parameter_in
vendor = refl
