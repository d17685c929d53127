-- ===== src/Simd/Decode/Avx2/Escapes.antt =====
-- decoder_simd_amd64.go: `fixEqMask`, and what `decodeSIMDAVX2` does about escapes.
use rapidyenc.Base.{not, Bytes, take, drop, if◌then◌else◌}
use rapidyenc.Go.Word64.{
  Word, w_and, w_or, w_xor, w_not, w_add, shift_left, shift_right, is_zero, word,
}
use rapidyenc.Go.Archsimd.{
  load32, broadcast, add, equal_lanes, to_lanes, to_mask, merge, permute_or_zero_grouped,
  concat_shift_bytes_right_grouped, concat_permute_128_scalars,
}
use rapidyenc.Simd.Decode.Avx2.Tables.{
  neg_42, neg_106, permute_a, permute_b, broadcast_word, and_lanes, permute_bit_mask,
}

-- 0x5555555555555555
unfoldable pub even_bits : Word
even_bits = word 64 0x5555555555555555

-- `fixEqMask`
unfoldable pub fix_eq_mask : Word → Word → Word
unfolding even_bits
fix_eq_mask mask mask_shift1 =
    let start = w_and mask (w_not mask_shift1) in
    let odd_groups = w_add mask (w_and start even_bits) in w_and (w_xor odd_groups even_bits) mask

-- What escapes make of a block: the mask of what goes, `escFirst`, and the decoded halves.
pub record Unescaped : Type 0 where
  pub mask : Word
  pub esc_first : Word
  pub lo : Bytes
  pub hi : Bytes

unfoldable pub spread : Word → Bytes → Word
unfolding broadcast_word permute_bit_mask
spread mask_eq places =
    to_mask (and_lanes (permute_or_zero_grouped (broadcast_word mask_eq) places) permute_bit_mask)

unfoldable pub with_fix : Bytes → Word → Word → Word → Word → Bytes → Unescaped
unfolding fix_eq_mask spread permute_a permute_b
with_fix p mask mask_eq shift1 esc yenc_offset =
    let fixed = fix_eq_mask mask_eq shift1 in
    let escaped = w_or (shift_left 1 fixed) esc in
    record {
      mask = w_and mask (w_not escaped);
      esc_first = shift_right 63 fixed;
      lo = add (load32 p) (merge (broadcast neg_106) yenc_offset (spread escaped permute_a));
      hi =
          add (load32 (drop 32 p))
            (merge (broadcast neg_106) (broadcast neg_42) (spread escaped permute_b));
    }

unfoldable pub without_fix : Bytes → Word → Word → Bytes → Unescaped
without_fix p mask mask_eq yenc_offset =
    let eq_lanes = to_lanes (take 32 mask_eq) in
    let behind_eq =
      equal_lanes
        (concat_shift_bytes_right_grouped eq_lanes
          (concat_permute_128_scalars eq_lanes 2 0 (broadcast b'=')) 15)
        (broadcast 255) in
    record {
      mask = mask;
      esc_first = shift_right 63 mask_eq;
      lo = add (load32 p) (merge (broadcast neg_106) yenc_offset behind_eq);
      hi = add (load32 (drop 32 p)) (
          merge (broadcast neg_106) (broadcast neg_42)
            (equal_lanes (broadcast b'=') (load32 (drop 31 p))));
    }

unfoldable pub unescape_block : Bytes → Word → Word → Word → Bytes → Unescaped
unfolding with_fix without_fix
unescape_block p mask mask_eq esc yenc_offset =
    let shift1 = w_add (shift_left 1 mask_eq) esc in
    if not (is_zero (w_and mask shift1))
    then with_fix p mask mask_eq shift1 esc yenc_offset
    else without_fix p mask mask_eq yenc_offset
