-- ===== src/Shim/Headers/Tests.antt =====
-- `Headers` at concrete names.
use ttlive_cpp.Prelude.{◌≡◌, codes, []}
use ttlive_cpp.Shim.Storage.{text}
use ttlive_cpp.Shim.Headers.{get, set}
use ttlive_cpp.Shim.Headers.Ascii.{ascii_only}
use ttlive_cpp.Shim.Headers.Laws.{get-set_header}
use ttlive_cpp.Js.Text.{same}

get-set_header_case :
    get ascii_only (codes "X-BOGUS") (set ascii_only (codes "x-Bogus") (codes "v") [])
    ≡ text (codes "v")
unfolding same
get-set_header_case = get-set_header ascii_only (codes "x-Bogus") (codes "X-BOGUS") (codes "v") []
