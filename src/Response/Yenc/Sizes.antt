-- ===== src/Response/Yenc/Sizes.antt =====
-- response.go, `computeExpectedSize`: the size of the first buffer.
use Prim.Native.Nat.{min}
use rapidyenc.Base.{ℕ, ◌+◌, ◌≤◌, arith, ◌==◌, if◌then◌else◌}
use rapidyenc.Base.Int.{ℤ, pos, negsuc}
use rapidyenc.Response.{ResponseMeta}
use rapidyenc.Response.Yenc.{yenc_max_part_size, yenc_min_buffer_size, compute_expected_size}

-- The size declared for the part, or for the file where none is declared for a part.
positive : ℤ → ℕ
positive (pos n) = n
positive (negsuc n) = 0

unfoldable pub declared : ResponseMeta → ℕ
unfolding positive
declared m =
    if positive m.meta.part_size == 0 then positive m.meta.file_size else positive m.meta.part_size

-- Whatever sizes the headers declare, negative and huge ones included, the first buffer is expected to
-- hold from 1 KiB to 10 MiB, and the bytes declared with a margin of 64, up to 10 MiB.
pub compute_expected_size_lem :
    (m : ResponseMeta)
    → (yenc_min_buffer_size ≤ compute_expected_size m)
      × (compute_expected_size m ≤ yenc_max_part_size)
      × (min (declared m + 64) yenc_max_part_size ≤ compute_expected_size m)
unfolding compute_expected_size declared
compute_expected_size_lem m = ground arith
