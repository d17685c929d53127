-- ===== src/Simd/Decode/Avx2/Loop.antt =====
-- decoder_simd_amd64.go: the kernel `decodeSIMDAVX2`. `isRaw` and `searchEnd` are set, as they are in
-- the code. A pointer into `src` is the rest of `src` from there, and the kernel's `dest` is the memory
-- `dest[:len(src)]`, whose first bytes it returns.
use rapidyenc.Base.{
  ℕ, zero, suc, ◌+◌, ◌-◌, ◌*◌, ◌/◌, not, ◌&&◌, Option, none, some, ◌∷◌, ◌++◌, Bytes, length, take,
  drop, replicate, ltb, leb, ◌==◌, if◌then◌else◌, Outcome, ret, panic, stuck, ◌>>=◌,
}
use rapidyenc.Go.Word64.{Word, is_zero, ones_count, value, word}
use rapidyenc.Go.Archsimd.{load32, broadcast, add, permute_or_zero, get_lo, get_hi, store}
use rapidyenc.Simd.Decode.Avx2.Tables.{compact_lut, neg_42, yenc_offset_of, min_mask_of}
use rapidyenc.Decoder.{State, Decoded}
use rapidyenc.Simd.Decode.{Vectors, decode_simd}
use rapidyenc.Simd.Decode.Avx2.LineEnds.{specials, find_lines, matches, mask_at_end}
use rapidyenc.Simd.Decode.Avx2.Escapes.{Unescaped, unescape_block}

-- The four stores of a block at the offset `d`.
unfoldable pub compacted : Word → Bytes → ℕ → Bytes
unfolding compact_lut
compacted mask half from = permute_or_zero half (compact_lut (take 15 (drop from mask)))

unfoldable pub store_block : ℕ → Unescaped → Bytes → Bytes
unfolding compacted
store_block d u dest =
    let gone = λ (n : ℕ). ones_count (take n u.mask) in
    store (d + (48 - gone 48)) (compacted u.mask (get_hi u.hi) 48) (
      store (d + (32 - gone 32)) (compacted u.mask (get_lo u.hi) 32) (
        store (d + (16 - gone 16)) (compacted u.mask (get_hi u.lo) 16)
          (store d (compacted u.mask (get_lo u.lo) 0) dest)))

-- The variables of the loop.
pub record Progress : Type 0 where
  pub consumed : ℕ
  pub produced : ℕ
  pub dest : Bytes
  pub esc_first : Word
  pub yenc_offset : Bytes
  pub min_mask : Bytes
  pub next_mask : ℕ

-- A round: it goes on, or breaks off.
pub data Block : Type 0 where
  go_on : Progress → Block
  break_off : Progress → Block

unfoldable pub plain_block : Bytes → Progress → Block
plain_block p l = go_on (record l {
  consumed = l.consumed + 64;
  produced = l.produced + 64;
  dest =
      store (l.produced + 32) (add (load32 (drop 32 p)) (broadcast neg_42))
        (store l.produced (add (load32 p) l.yenc_offset) l.dest);
  esc_first = word 64 0;
  yenc_offset = broadcast neg_42;
})

unfoldable pub unescaped_block : Bytes → Progress → Word → Option (Word × Bytes) → Word → Block
unfolding mask_at_end unescape_block store_block yenc_offset_of
unescaped_block p l mask none mask_eq = break_off (record l { next_mask = mask_at_end p mask })
unescaped_block p l mask (some (mask', min_mask')) mask_eq =
    let u = unescape_block p mask' mask_eq l.esc_first l.yenc_offset in
    go_on (record l {
      consumed = l.consumed + 64;
      produced = l.produced + (64 - ones_count u.mask);
      dest = store_block l.produced u l.dest;
      esc_first = u.esc_first;
      yenc_offset = yenc_offset_of (not (is_zero u.esc_first));
      min_mask = min_mask';
    })

unfoldable pub special_block : Bytes → Progress → Word → Block
unfolding unescaped_block find_lines matches
special_block p l mask =
    let mask_eq = matches 0 b'=' p ++ matches 0 b'=' (drop 32 p) in
    unescaped_block p l mask (find_lines p mask mask_eq l.min_mask) mask_eq

unfoldable pub block : Bytes → Progress → Block
unfolding specials plain_block special_block
block p l =
    let mask = specials (load32 p) l.min_mask ++ specials (load32 (drop 32 p)) (broadcast b'.') in
    if is_zero mask then plain_block p l else special_block p l mask

-- `for ; consumed+68 <= n; consumed += 64`, with the rest of `src`. Each round takes 64 bytes, so fuel
-- for each byte is enough.
unfoldable pub after_block :
    (Bytes → Progress → Outcome Progress) → Bytes → Block → Outcome Progress
after_block loop p (go_on l) = loop (drop 64 p) l
after_block loop p (break_off l) = ret l

unfoldable pub blocks : ℕ → Bytes → Progress → Outcome Progress
unfolding block after_block
blocks zero p l = if leb 68 (length p) then stuck else ret l
blocks (suc fuel) p l =
    let next = after_block (blocks fuel) p (block p l) in if leb 68 (length p) then next else ret l

-- The mask for a "\r\n." that starts at one of two places.
abbrev pub mask_across : Bytes → ℕ
mask_across (a ∷ b ∷ c ∷ d ∷ r) =
    if a == b'\r' && b == b'\n' && c == b'.'
    then 1
    else if b == b'\r' && c == b'\n' && d == b'.'
    then 2
    else 0
mask_across r = 0

-- `nextMask` behind the last block, if every block is taken.
unfoldable pub straddling : Bytes → ℕ → ℕ
straddling src n =
    if leb 68 (length src) then mask_across (drop (64 * ((length src - 4) / 64) - 2) src) else n

-- `decodeSIMDAVX2`. What `dest` holds before is not read; it is given as zeros.
unfoldable pub decode_simd_avx2 : ℕ → Bytes → ℕ → ℕ → Outcome Vectors
unfolding blocks straddling yenc_offset_of min_mask_of
decode_simd_avx2 dest_len src esc_first next_mask = if ltb dest_len (length src) then panic else (do
  l ← blocks (length src) src (record {
    consumed = 0;
    produced = 0;
    dest = replicate (length src) 0;
    esc_first = word 64 esc_first;
    yenc_offset = yenc_offset_of (ltb 0 esc_first);
    min_mask = min_mask_of next_mask;
    next_mask = straddling src next_mask;
  })
  ret (record {
    consumed = l.consumed;
    written = take l.produced l.dest;
    esc_first = value l.esc_first;
    next_mask = l.next_mask;
  }))

-- `decodeAVX2`, with the place of `src` in memory.
unfoldable pub decode_avx2 : ℕ → ℕ → Bytes → State → Outcome Decoded
unfolding decode_simd
decode_avx2 address dest_len src s = decode_simd 64 decode_simd_avx2 address dest_len src s
