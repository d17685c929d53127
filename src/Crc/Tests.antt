-- ===== src/Crc/Tests.antt =====
-- Checksums of concrete slices, and the theorems at concrete inputs.
use rapidyenc.Base.{ℕ, zero, suc, All, IsByte, Bytes, true, ◌≡◌, refl, arith, replicate, ret}
use rapidyenc.Go.Crc32.{update, raw_update}
use rapidyenc.Crc.{crc_mul, shift_zeros, crc_update_streams}
use rapidyenc.Crc.Product.{crc_mul-shift_zeros}
use rapidyenc.Crc.Streams.{quarters, crc_update_streams-update}

-- x^8 modulo the polynomial.
shift_run : shift_zeros 0x80000000 1 ≡ 0x00800000
unfolding shift_zeros raw_update
shift_run = refl

crc_mul-shift_zeros_example :
    crc_mul 0xcbf43926 (shift_zeros 0x80000000 3) ≡ shift_zeros 0xcbf43926 3
crc_mul-shift_zeros_example = crc_mul-shift_zeros 0xcbf43926 3 (omega arith)

-- A slice that is long enough for four streams, and a tail.
abbrev long_slice : Bytes
long_slice = replicate 1100 7

sevens-bytes : (n : ℕ) → All IsByte (replicate n 7)
sevens-bytes zero = tt
sevens-bytes (suc n) = (omega arith, sevens-bytes n)

crc_update_streams-update_example :
    crc_update_streams quarters true 9 long_slice ≡ ret (update 9 long_slice)
crc_update_streams-update_example =
    crc_update_streams-update quarters (λ c p h. refl) true 9 long_slice (sevens-bytes 1100)
