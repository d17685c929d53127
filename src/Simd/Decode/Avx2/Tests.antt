-- ===== src/Simd/Decode/Avx2/Tests.antt =====
-- Runs of the kernel `decodeSIMDAVX2`.
use rapidyenc.Base.{
  ret, true, false, arith, none, some, [], ◌∷◌, length, take, drop, ◌+◌, ◌-◌, if◌then◌else◌, ◌++◌,
  ◌≡◌, refl, Bytes, codes, replicate,
}
use rapidyenc.Decoder.{State, End, Decoded, decode_generic}
use rapidyenc.Decoder.Simulation.{resume}
use rapidyenc.Simd.Decode.Avx2.Agree.{decode_avx2-decode_generic}
use rapidyenc.Simd.Decode.{Vectors, kernel_state, decode_simd}
use rapidyenc.Go.Word64.{Word, word, w_add, shift_left, ones_count}
use rapidyenc.Simd.Decode.Avx2.Escapes.{fix_eq_mask, Unescaped, unescape_block}
use rapidyenc.Simd.Decode.Avx2.Chains.{escapes, low_bit, fix_eq_mask-escapes}
use rapidyenc.Simd.Decode.Probes.{starts}
use rapidyenc.Simd.Decode.Refine.{Decodes, IsVectors}
use rapidyenc.Simd.Decode.Avx2.Loop.{decode_simd_avx2, decode_avx2, store_block}
use rapidyenc.Simd.Decode.Avx2.LineEnds.{find_lines}
use rapidyenc.Simd.Decode.Avx2.Tables.{yenc_offset_of}
use rapidyenc.Simd.Decode.Avx2.Each.{each, any_of}
use rapidyenc.Simd.Decode.Avx2.Lanes.{at_end}
use rapidyenc.Simd.Decode.Avx2.Marks.{min_mask_for, with_dots}
use rapidyenc.Simd.Decode.Avx2.Search.{marks}
use rapidyenc.Simd.Decode.Avx2.Lines.{at_eq, find_lines-with_dots}
use rapidyenc.Simd.Decode.Avx2.Unescape.{unescaped_by, unescape_block-unescaped_by}
use rapidyenc.Simd.Decode.Avx2.Compact.{keep}
use rapidyenc.Simd.Decode.Avx2.Stores.{store_block-keep}
use rapidyenc.Simd.Decode.Avx2.Refine.{decode_avx2-Decodes, decode_simd_avx2-IsVectors}

-- Two blocks: an escaped "=", a stuffed dot behind a line end that straddles them, and an escape at
-- the end of a line.
abbrev two_blocks : Bytes
two_blocks =
    replicate 20 b'k'
    ++ (codes "====n\r\n..=M" ++ (replicate 31 b'k' ++ (codes "\r\n." ++ replicate 80 b'l')))

both_ways :
    decode_simd 64 decode_simd_avx2 0 200 two_blocks State.none
    ≡ decode_generic 200 two_blocks State.none
unfolding decode_simd decode_simd_avx2 decode_generic
both_ways = refl

-- Groups of "=" behind an escape, in the middle and at the end of a block.
abbrev equal_signs : Word
equal_signs = word 64 0xf00000000000e00b

fix_eq_mask-escapes_example :
    fix_eq_mask equal_signs (w_add (shift_left 1 equal_signs) (low_bit true 64))
    ≡ escapes true equal_signs
fix_eq_mask-escapes_example = fix_eq_mask-escapes true equal_signs refl

decode_avx2-Decodes_example :
    Decodes State.none two_blocks (decode_avx2 0 200 two_blocks State.none)
decode_avx2-Decodes_example =
    decode_avx2-Decodes 0 200 two_blocks State.none (omega arith) (omega arith)

decode_simd_avx2-IsVectors_example :
    (k : Vectors) × (decode_simd_avx2 200 two_blocks 1 0 ≡ ret k)
    × IsVectors (kernel_state 1 0) two_blocks k
unfolding starts
decode_simd_avx2-IsVectors_example =
    decode_simd_avx2-IsVectors 200 two_blocks 1 0 (omega arith) (omega arith) (omega arith)
      (omega arith) refl

-- A stuffed dot at the start, one at a line start, and one behind the block.
abbrev dotted_block : Bytes
dotted_block = codes ".kk\r\n..kk=" ++ (replicate 52 b'k' ++ (codes "\r\n." ++ replicate 10 b'l'))

find_lines-with_dots_example :
    find_lines dotted_block
      (marks true false dotted_block)
      (each 64 at_eq dotted_block)
      (min_mask_for true false)
    ≡ (if any_of 64 at_end dotted_block
        then none
        else some (with_dots (marks true false dotted_block) dotted_block))
find_lines-with_dots_example =
    find_lines-with_dots true false dotted_block (omega arith) (λ h. refl)
      (λ h. absurd (ground (arith, h)))

unescape_block-unescaped_by_example :
    unescape_block two_blocks
      (marks false false two_blocks)
      (each 64 at_eq two_blocks)
      (low_bit true 64)
      (yenc_offset_of true)
    ≡ unescaped_by true
        (escapes true (each 64 at_eq two_blocks))
        two_blocks
        (marks false false two_blocks)
unescape_block-unescaped_by_example =
    unescape_block-unescaped_by true two_blocks (marks false false two_blocks) (omega arith) refl
      refl

abbrev decoded_block : Unescaped
decoded_block = record {
  mask = word 64 0xf0f80010f0007001;
  esc_first = word 64 0;
  lo = replicate 32 1;
  hi = replicate 32 2;
}

abbrev fresh_dest : Bytes
fresh_dest = replicate 70 0

store_block-keep_example :
    (length (store_block 3 decoded_block fresh_dest) ≡ length fresh_dest)
    × (take (3 + (64 - ones_count decoded_block.mask)) (store_block 3 decoded_block fresh_dest)
        ≡ take 3 fresh_dest ++ keep decoded_block.mask (replicate 32 1 ++ replicate 32 2))
store_block-keep_example =
    store_block-keep decoded_block.mask (replicate 32 1) (replicate 32 2) refl refl refl 3
      (word 64 0) fresh_dest (omega arith)

-- What both decoders return on the two blocks.
abbrev decoded_blocks : Decoded
decoded_blocks = record {
  n_src = 145;
  decoded =
      replicate 20 65 ++ (211 ∷ 211 ∷ 68 ∷ 4 ∷ 227 ∷ [] ++ (replicate 31 65 ++ replicate 80 66));
  state = State.none;
  ended = End.none;
}

by_avx2 : decode_avx2 0 200 two_blocks State.none ≡ ret decoded_blocks
unfolding decode_avx2 decode_simd decode_simd_avx2 decode_generic
by_avx2 = refl

by_generic : decode_generic 200 two_blocks State.none ≡ ret decoded_blocks
unfolding decode_generic
by_generic = refl

decode_avx2-decode_generic_example :
    resume decoded_blocks (drop decoded_blocks.n_src two_blocks ++ codes "=k")
    ≡ resume decoded_blocks (drop decoded_blocks.n_src two_blocks ++ codes "=k")
decode_avx2-decode_generic_example =
    decode_avx2-decode_generic 0 200 two_blocks State.none decoded_blocks decoded_blocks
      (omega arith) (omega arith) by_avx2 by_generic (codes "=k")
