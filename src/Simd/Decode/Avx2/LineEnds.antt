-- ===== src/Simd/Decode/Avx2/LineEnds.antt =====
-- decoder_simd_amd64.go: what `decodeSIMDAVX2` looks for in a block: special bytes, stuffed dots and
-- the ends of a stream. What the code does alike on its two halves `A` and `B` is one function of the
-- place where the half starts.
use rapidyenc.Base.{
  ℕ, zero, suc, false, not, ◌&&◌, Option, none, some, [], ◌∷◌, ◌++◌, Bytes, take, drop, replicate,
  ◌==◌, if◌then◌else◌,
}
use rapidyenc.Go.Word64.{Word, w_and, w_or, shift_left, is_zero, same_word, value, word}
use rapidyenc.Go.Archsimd.{
  load32, broadcast, min_lanes, sub_saturated, equal_lanes, to_lanes, to_mask, lane,
  permute_or_zero_grouped, get_hi, concat_shift_bytes_right, equal_16, shift_all_left_8,
  shift_all_right_8,
}
use rapidyenc.Simd.Decode.Avx2.Tables.{special_lut}

-- `cmpA` and `cmpB`
unfoldable pub specials : Bytes → Bytes → Word
unfolding special_lut
specials half min_mask =
    equal_lanes half (permute_or_zero_grouped special_lut (min_lanes half min_mask))

-- The masks of a half that starts at `p`.
unfoldable pub matches : ℕ → ℕ → Bytes → Word
matches offset b p = equal_lanes (load32 (drop offset p)) (broadcast b)

unfoldable pub cr_x_dot : Bytes → Word
unfolding matches
cr_x_dot p = w_and (matches 0 b'\r' p) (matches 2 b'.' p)

unfoldable pub new_line : Bytes → Word
unfolding matches
new_line p = w_and (matches 1 b'\n' p) (matches 0 b'\r' p)

unfoldable pub nl_dot : Bytes → Word
unfolding cr_x_dot new_line
nl_dot p = w_and (cr_x_dot p) (new_line p)

unfoldable pub eq_y : Bytes → Word
unfolding matches
eq_y p = w_and (matches 2 b'=' p) (matches 3 b'y' p)

-- `BroadcastInt16x16(0x793d)`
abbrev pub broadcast_eq_y : ℕ → Bytes
broadcast_eq_y zero = []
broadcast_eq_y (suc n) = b'=' ∷ b'y' ∷ broadcast_eq_y n

-- "\r\n" or "=y" behind "\r\n.", and "=y" behind "\r\n".
unfoldable pub eq_y_later : Bytes → Word
unfolding eq_y
eq_y_later p =
    w_or (to_mask (shift_all_left_8 (equal_16 (load32 (drop 4 p)) (broadcast_eq_y 16))))
      (to_mask (shift_all_right_8 (to_lanes (eq_y p))))

unfoldable pub ends_behind_dot : Bytes → Word
unfolding nl_dot eq_y_later matches
ends_behind_dot p =
    w_and (w_or (w_and (matches 3 b'\r' p) (matches 4 b'\n' p)) (eq_y_later p)) (nl_dot p)

unfoldable pub ends : Bytes → Word
unfolding ends_behind_dot eq_y new_line
ends p = w_or (ends_behind_dot p) (w_and (eq_y p) (new_line p))

-- The part on "\r\n." and on the ends of a stream, on the window `p` of the block: none where an end
-- is found, or else the new `mask` and `minMask`.
unfoldable pub next_min_mask : Word → Bytes
next_min_mask nl_dot_b =
    let shifted = concat_shift_bytes_right (replicate 16 0) (get_hi (to_lanes nl_dot_b)) 14 in
    sub_saturated (broadcast b'.') (shifted ++ replicate 16 0)

unfoldable pub line_starts : Bytes → Word → Option (Word × Bytes)
unfolding cr_x_dot nl_dot ends eq_y new_line next_min_mask
line_starts p mask =
    let q = drop 32 p in
    if not (is_zero (w_or (cr_x_dot p) (cr_x_dot q)))
    then (if not (is_zero (w_or (ends p) (ends q)))
        then none
        else some (
          w_or (w_or mask (shift_left 2 (nl_dot p ++ replicate 32 false)))
              (shift_left 34 (nl_dot q ++ replicate 32 false)),
          next_min_mask (nl_dot q),
        ))
    else if not (is_zero (w_or (eq_y p) (eq_y q)))
        && not (is_zero (w_or (w_and (eq_y p) (new_line p)) (w_and (eq_y q) (new_line q))))
    then none
    else some (mask, broadcast b'.')

unfoldable pub find_lines : Bytes → Word → Word → Bytes → Option (Word × Bytes)
unfolding line_starts
find_lines p mask mask_eq min_mask =
    if not (same_word mask mask_eq) then line_starts p mask else some (mask, min_mask)

-- `nextMask` where an end is found.
unfoldable pub mask_at_end : Bytes → Word → ℕ
mask_at_end p mask =
    if lane 0 p == b'.'
    then value (w_and (take 16 mask) (word 16 1))
    else if lane 1 p == b'.'
    then value (w_and (take 16 mask) (word 16 2))
    else 0
