-- ===== src/Simd/Decode/Avx2/Tables.antt =====
-- decoder_simd_amd64.go: `compactLUT` and the vectors that `initAVX2` makes, and the vectors that
-- `decodeSIMDAVX2` starts with.
use Prim.Native.Nat.{bit_and}
use rapidyenc.Base.{
  ℕ, zero, suc, ◌-◌, Bool, false, [], ◌∷◌, ◌++◌, Bytes, length, take, drop, replicate, ◌==◌,
  if◌then◌else◌,
}
use rapidyenc.Go.Word64.{Word, value}
use rapidyenc.Go.Archsimd.{broadcast}

-- A row of `compactLUT`: the places of the bits of `k` that are 0, and 0x80 up to 16. The index has 15
-- bits, so that the last of the 16 bits that are looked at is 0.
abbrev pub zero_places : ℕ → Word → Bytes
zero_places j [] = []
zero_places j (k ∷ ks) = if k then zero_places (suc j) ks else j ∷ zero_places (suc j) ks

abbrev pub padded : Bytes → Bytes
padded ps = ps ++ replicate (16 - length ps) 0x80

unfoldable pub compact_lut : Word → Bytes
compact_lut k = padded (zero_places 0 (k ++ (false ∷ [])))

abbrev pub special_lut_lane : Bytes
special_lut_lane =
    b'.' ∷ 255 ∷ 255 ∷ 255 ∷ 255 ∷ 255 ∷ 255 ∷ 255 ∷ 255 ∷ 255 ∷ b'\n' ∷ 255 ∷ 255 ∷ b'\r' ∷ b'='
    ∷ 255 ∷ []

-- The vectors that `initAVX2` makes.
unfoldable pub special_lut : Bytes
special_lut = special_lut_lane ++ special_lut_lane

abbrev pub neg_42 : ℕ
neg_42 = 256 - 42

abbrev pub neg_106 : ℕ
neg_106 = 256 - 42 - 64

unfoldable pub broadcast_escape_first : Bytes
broadcast_escape_first = neg_106 ∷ replicate 31 neg_42

unfoldable pub min_mask_1 : Bytes
min_mask_1 = 0 ∷ replicate 31 b'.'

unfoldable pub min_mask_2 : Bytes
min_mask_2 = b'.' ∷ 0 ∷ replicate 30 b'.'

abbrev pub repeat_each : ℕ → Bytes → Bytes
repeat_each n [] = []
repeat_each n (b ∷ x) = replicate n b ++ repeat_each n x

unfoldable pub permute_a : Bytes
permute_a = repeat_each 8 (0 ∷ 1 ∷ 2 ∷ 3 ∷ [])

unfoldable pub permute_b : Bytes
permute_b = repeat_each 8 (4 ∷ 5 ∷ 6 ∷ 7 ∷ [])

-- The bytes of a word, the lowest first.
abbrev pub bytes_of : ℕ → Word → Bytes
bytes_of zero x = []
bytes_of (suc n) x = value (take 8 x) ∷ bytes_of n (drop 8 x)

-- `BroadcastUint64x4(x).AsUint8x32()`
unfoldable pub broadcast_word : Word → Bytes
broadcast_word x = let b = bytes_of 8 x in b ++ (b ++ (b ++ b))

unfoldable pub permute_bit_mask : Bytes
permute_bit_mask = let b = 1 ∷ 2 ∷ 4 ∷ 8 ∷ 16 ∷ 32 ∷ 64 ∷ 128 ∷ [] in b ++ (b ++ (b ++ b))

abbrev pub and_lanes : Bytes → Bytes → Bytes
and_lanes (a ∷ x) (b ∷ y) = bit_and a b ∷ and_lanes x y
and_lanes x y = []

-- `yencOffset` and `minMask` to start with.
unfoldable pub yenc_offset_of : Bool → Bytes
yenc_offset_of escaped = if escaped then broadcast_escape_first else broadcast neg_42

unfoldable pub min_mask_of : ℕ → Bytes
min_mask_of next_mask =
    if next_mask == 1 then min_mask_1 else if next_mask == 2 then min_mask_2 else broadcast b'.'
