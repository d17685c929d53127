-- ===== src/Go/Crc32.antt =====
-- The package `hash/crc32` with the IEEE polynomial.
use Prim.Native.Nat.{bit_xor}
use rapidyenc.Base.{
  ℕ, zero, suc, ◌-◌, ◌/◌, ◌%◌, ◌^◌, [], ◌∷◌, ◌++◌, ◌≡◌, refl, Bytes, codes, ◌==◌, if◌then◌else◌,
}

abbrev pub polynomial : ℕ
polynomial = 0xedb88320

unfoldable pub shift_bits : ℕ → ℕ → ℕ
shift_bits zero crc = crc
shift_bits (suc k) crc =
    shift_bits k (if crc % 2 == 1 then bit_xor (crc / 2) polynomial else crc / 2)

-- `crc32.IEEETable[i]`
unfoldable pub table : ℕ → ℕ
unfolding shift_bits
table i = shift_bits 8 i

-- The register over the bytes of `p`.
unfoldable pub raw_update : ℕ → Bytes → ℕ
unfolding table
raw_update crc [] = crc
raw_update crc (v ∷ p) = raw_update (bit_xor (table (bit_xor (crc % 256) v)) (crc / 2 ^ 8)) p

-- `^crc` on a uint32
abbrev pub invert : ℕ → ℕ
invert crc = 2 ^ 32 - 1 - crc % 2 ^ 32

-- `crc32.Update(crc, crc32.IEEETable, p)`
unfoldable pub update : ℕ → Bytes → ℕ
unfolding raw_update
update crc p = invert (raw_update (invert crc) p)

check_value : update 0 (codes "123456789") ≡ 0xcbf43926
unfolding update
check_value = refl

pub raw_update-append :
    (a b : Bytes) (crc : ℕ) → raw_update crc (a ++ b) ≡ raw_update (raw_update crc a) b
unfolding raw_update
raw_update-append [] b crc = refl
raw_update-append (v ∷ a) b crc = raw_update-append a b _
