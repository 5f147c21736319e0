-- ===== src/Shim/Random/Tests.antt =====
-- Random values from concrete streams.
use ttlive_cpp.Prelude.{◌≡◌, ◌↔◌, ◌≤◌, ◌<◌, ◌*◌, ◌+◌, ◌^◌, arith}
use ttlive_cpp.Shim.Random.{draw, template, random_uuid}
use ttlive_cpp.Shim.Random.Laws.{draw_even, FitsAll, random_uuid-Fits}

middle_of_bytes :
    (draw 8 (2 ^ 52) ≡ 128) ↔ ((128 * 2 ^ 45 ≤ 2 ^ 52) × (2 ^ 52 < (128 + 1) * 2 ^ 45))
middle_of_bytes = draw_even 1 (2 ^ 52) 128 (omega arith)

random_uuid-Fits_case : FitsAll template (random_uuid (λ i. 2 ^ 52))
random_uuid-Fits_case = random_uuid-Fits (λ i. 2 ^ 52) (λ i. omega arith)
