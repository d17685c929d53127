-- ===== src/Go/Archsimd.antt =====
-- The operations of Go's `simd/archsimd` that the code uses. A vector of 32 (or 16) bytes is the list
-- of its lanes, whether they are read as `int8` or as `uint8`, and a mask is the list of its bits.
use Prim.Native.Nat.{min}
use rapidyenc.Base.{
  ℕ, zero, suc, ◌+◌, ◌-◌, ◌%◌, not, ◌&&◌, [], ◌∷◌, ◌++◌, Bytes, length, take, drop, replicate,
  add_byte, ltb, ◌==◌, if◌then◌else◌,
}
use rapidyenc.Go.Word64.{Word, zip_with}

-- `LoadUint8x32Array` at `p`, with all of the memory from there on.
abbrev pub load32 : Bytes → Bytes
load32 p = take 32 p

-- `BroadcastInt8x32`
abbrev pub broadcast : ℕ → Bytes
broadcast b = replicate 32 b

-- `Add`, `Min` and `SubSaturated` on bytes, and `And`.
abbrev pub add : Bytes → Bytes → Bytes
add = zip_with add_byte

abbrev pub min_lanes : Bytes → Bytes → Bytes
min_lanes = zip_with min

abbrev pub sub_saturated : Bytes → Bytes → Bytes
sub_saturated = zip_with (λ a b. a - b)

-- `Equal`
abbrev pub equal_lanes : Bytes → Bytes → Word
equal_lanes [] y = []
equal_lanes (a ∷ x) [] = []
equal_lanes (a ∷ x) (b ∷ y) = (a == b) ∷ equal_lanes x y

-- `Mask8x32.ToInt8x32`: every bit of a lane is set, or none. `Int8x32.ToMask`: the lanes that are
-- not 0.
abbrev pub to_lanes : Word → Bytes
to_lanes [] = []
to_lanes (a ∷ x) = (if a then 255 else 0) ∷ to_lanes x

abbrev pub to_mask : Bytes → Word
to_mask [] = []
to_mask (b ∷ x) = not (b == 0) ∷ to_mask x

-- `x.Merge(y, mask)`
abbrev pub merge : Bytes → Bytes → Word → Bytes
merge (a ∷ x) (b ∷ y) (m ∷ ms) = (if m then a else b) ∷ merge x y ms
merge x y ms = []

abbrev pub lane : ℕ → Bytes → ℕ
lane n [] = 0
lane zero (b ∷ x) = b
lane (suc n) (b ∷ x) = lane n x

-- `PermuteOrZero` on 16 bytes, and `PermuteOrZeroGrouped` on two groups of 16.
abbrev pub permute_or_zero : Bytes → Bytes → Bytes
permute_or_zero x [] = []
permute_or_zero x (i ∷ is) = (if ltb i 128 then lane (i % 16) x else 0) ∷ permute_or_zero x is

abbrev pub permute_or_zero_grouped : Bytes → Bytes → Bytes
permute_or_zero_grouped x is =
    permute_or_zero (take 16 x) (take 16 is) ++ permute_or_zero (drop 16 x) (drop 16 is)

-- `GetLo` and `GetHi`; `SetLo` and `SetHi` put two halves together.
abbrev pub get_lo : Bytes → Bytes
get_lo x = take 16 x

abbrev pub get_hi : Bytes → Bytes
get_hi x = drop 16 x

-- `x.ConcatShiftBytesRight(y, n)`: 16 bytes of `y` with `x` above it; `...Grouped` on two groups.
abbrev pub concat_shift_bytes_right : Bytes → Bytes → ℕ → Bytes
concat_shift_bytes_right x y n = take 16 (drop n (y ++ x))

abbrev pub concat_shift_bytes_right_grouped : Bytes → Bytes → ℕ → Bytes
concat_shift_bytes_right_grouped x y n =
    concat_shift_bytes_right (get_lo x) (get_lo y) n
    ++ concat_shift_bytes_right (get_hi x) (get_hi y) n

-- `x.ConcatPermute128Scalars(lo, hi, y)`: two of the four halves of `x` and `y`.
abbrev pub half_of : Bytes → Bytes → ℕ → Bytes
half_of x y n =
    if n == 0 then get_lo x else if n == 1 then get_hi x else if n == 2 then get_lo y else get_hi y

abbrev pub concat_permute_128_scalars : Bytes → ℕ → ℕ → Bytes → Bytes
concat_permute_128_scalars x lo hi y = half_of x y lo ++ half_of x y hi

-- On lanes of 16 bits, the low byte first: `Int16x16.Equal`, given by the bytes of its mask, and
-- shifts by 8.
abbrev pub equal_16 : Bytes → Bytes → Bytes
equal_16 (a ∷ b ∷ x) (c ∷ d ∷ y) =
    let e = if a == c && b == d then 255 else 0 in e ∷ e ∷ equal_16 x y
equal_16 x y = []

abbrev pub shift_all_left_8 : Bytes → Bytes
shift_all_left_8 (lo ∷ hi ∷ x) = 0 ∷ lo ∷ shift_all_left_8 x
shift_all_left_8 x = []

abbrev pub shift_all_right_8 : Bytes → Bytes
shift_all_right_8 (lo ∷ hi ∷ x) = hi ∷ 0 ∷ shift_all_right_8 x
shift_all_right_8 x = []

-- `StoreArray` of 16 or 32 bytes at the offset `at` of the memory `m`.
abbrev pub store : ℕ → Bytes → Bytes → Bytes
store at x m = take at m ++ (x ++ drop (at + length x) m)
