-- ===== src/Crc.antt =====
-- crc32_combine.go, crc32_clmul_generic.go and crc32_multistream_arm64.go: the checksum of a large
-- slice from four parts of it. `rawUpdate` is `Go.Crc32.raw_update`. The assembly routine
-- `crc32IEEEQuad` is a parameter: it gives the four registers behind the four quarters of a slice.
pub mod Linear
pub mod Product
pub mod Streams
mod Tests
use Prim.Native.Nat.{bit_xor}
use rapidyenc.Base.{
  ℕ, zero, suc, ◌+◌, ◌*◌, ◌/◌, ◌%◌, ◌^◌, Bool, not, ◌||◌, [], ◌∷◌, Bytes, length, take, drop,
  replicate, ltb, leb, ◌==◌, if◌then◌else◌, Outcome, ret, stuck, ◌>>=◌,
}
use rapidyenc.Go.Crc32.{raw_update, invert, update}

abbrev pub crc_streams : ℕ
crc_streams = 4

abbrev pub crc_quarter_big : ℕ
crc_quarter_big = 2048

abbrev pub crc_quarter_sml : ℕ
crc_quarter_sml = 256

abbrev pub crc_min_chunk : ℕ
crc_min_chunk = crc_streams * crc_quarter_sml

-- `for i := 0; i < 32; i++` of `clmul32`, with the rounds left; `b&(1<<i)` is a digit of `b`.
unfoldable pub clmul_loop : ℕ → ℕ → ℕ → ℕ → ℕ → ℕ
clmul_loop zero i x b res = res
clmul_loop (suc k) i x b res =
    clmul_loop k (i + 1) x b (if b / 2 ^ i % 2 == 0 then res else bit_xor res (x * 2 ^ i % 2 ^ 64))

-- `clmul32`
unfoldable pub clmul32 : ℕ → ℕ → ℕ
unfolding clmul_loop
clmul32 a b = clmul_loop 32 0 a b 0

-- The four low bytes of a uint64, and what `crcMul` makes of it.
unfoldable pub reduce : ℕ → ℕ
reduce p =
    bit_xor (raw_update 0 (p % 256 ∷ p / 2 ^ 8 % 256 ∷ p / 2 ^ 16 % 256 ∷ p / 2 ^ 24 % 256 ∷ []))
      (p / 2 ^ 32 % 2 ^ 32)

-- `crcMul`
unfoldable pub crc_mul : ℕ → ℕ → ℕ
unfolding reduce clmul32
crc_mul a b = reduce (clmul32 a b * 2 % 2 ^ 64)

-- `shiftZeros`
unfoldable pub shift_zeros : ℕ → ℕ → ℕ
shift_zeros crc n = raw_update crc (replicate n 0)

-- `*[4]uint32`
pub record Quad : Type 0 where
  pub c0 : ℕ
  pub c1 : ℕ
  pub c2 : ℕ
  pub c3 : ℕ

-- The register behind a chunk, from those behind its quarters.
pub combine : ℕ → Quad → ℕ
unfolding crc_mul
combine k c = bit_xor (crc_mul (bit_xor (crc_mul (bit_xor (crc_mul c.c0 k) c.c1) k) c.c2) k) c.c3

module _ (crc32_ieee_quad : Quad → Bytes → Quad) where
  -- `for len(p) >= chunk`, on fuel, with the quarter `q` and its constant `k`.
  pub chunks : ℕ → ℕ → ℕ → ℕ → Bytes → Outcome (ℕ × Bytes)
  unfolding combine
  chunks zero q k raw p = if leb (crc_streams * q) (length p) then stuck else ret (raw, p)
  chunks (suc fuel) q k raw p =
      let chunk = crc_streams * q in
      let c = crc32_ieee_quad (record { c0 = raw; c1 = 0; c2 = 0; c3 = 0 }) (take chunk p) in
      let rest = chunks fuel q k (combine k c) (drop chunk p) in
      if leb chunk (length p) then rest else ret (raw, p)

  -- `crcUpdate`, with `crcMultiStream` given. The constants of `crcQuarterK` are those of `init`.
  unfoldable pub crc_update_streams : Bool → ℕ → Bytes → Outcome ℕ
  unfolding chunks shift_zeros
  crc_update_streams crc_multi_stream crc p =
      if not crc_multi_stream || ltb (length p) crc_min_chunk then ret (update crc p) else (do
        (raw, p') ←
            chunks (length p) crc_quarter_big (shift_zeros 0x80000000 crc_quarter_big) (invert crc)
              p
        (raw', p'') ←
            chunks (length p') crc_quarter_sml (shift_zeros 0x80000000 crc_quarter_sml) raw p'
        ret (update (invert raw') p''))
