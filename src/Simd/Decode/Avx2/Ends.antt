-- ===== src/Simd/Decode/Avx2/Ends.antt =====
-- What the kernel finds in a block, told from the bytes at each place: the special bytes, the stuffed
-- dots behind line ends and the ends of a stream.
use rapidyenc.Base.{
  ℕ, zero, suc, ◌+◌, ◌≤◌, ◌≡◌, refl, ap, arith, Bool, true, false, not, ◌&&◌, ◌||◌, [], ◌∷◌, Bytes,
  length, take, drop, ◌==◌, if◌then◌else◌,
}
use rapidyenc.Go.Word64.{w_or}
use rapidyenc.Go.Archsimd.{lane, to_mask, to_lanes, shift_all_left_8, shift_all_right_8, equal_16}
use rapidyenc.Simd.Decode.Avx2.Each.{each, each_same, equal_lanes-each}
use rapidyenc.Simd.Decode.Avx2.LineEnds.{
  matches, broadcast_eq_y, cr_x_dot, new_line, nl_dot, eq_y, eq_y_later, ends_behind_dot, ends,
}
use rapidyenc.Simd.Decode.Avx2.Lanes.{at_nl_dot, at_end}

abbrev pub at_cr_x_dot : Bytes → Bool
at_cr_x_dot v = lane 0 v == b'\r' && lane 2 v == b'.'

abbrev pub at_new_line : Bytes → Bool
at_new_line v = lane 1 v == b'\n' && lane 0 v == b'\r'

abbrev pub at_eq_y : Bytes → Bool
at_eq_y v = lane 2 v == b'=' && lane 3 v == b'y'

pub matches-each :
    (k b : ℕ) (p : Bytes) → 32 + k ≤ length p → matches k b p ≡ each 32 (λ v. lane k v == b) p
unfolding matches
matches-each k b p h = equal_lanes-each k b 32 p h

abbrev pub at_eq_y_later : Bytes → Bool
at_eq_y_later v = lane 3 v == b'=' && lane 4 v == b'y'

abbrev twice : ℕ → ℕ
twice zero = 0
twice (suc n) = suc (suc (twice n))

byte_of-mask : (x : Bool) → not ((if x then 255 else 0) == 0) ≡ x
byte_of-mask true = refl
byte_of-mask false = refl

mask_or_zero : (x : Bool) → (x || false) ≡ x
mask_or_zero true = refl
mask_or_zero false = refl

-- Two lanes are one of 16 bits.
later_pairs :
    (n : ℕ) (w : Bytes)
    → twice n + 4 ≤ length w
    → w_or
        (to_mask (shift_all_left_8 (equal_16 (take (twice n) (drop 4 w)) (broadcast_eq_y n))))
        (to_mask (shift_all_right_8 (to_lanes (each (twice n) at_eq_y w))))
      ≡ each (twice n) at_eq_y_later w
later_pairs zero w h = refl
later_pairs (suc n) (a ∷ b ∷ c ∷ d ∷ e ∷ f ∷ r) h =
    rw
      (
        byte_of-mask (d == b'=' && e == b'y'),
        byte_of-mask (e == b'=' && f == b'y'),
        mask_or_zero (e == b'=' && f == b'y'),
      )
      (ap (λ x. (d == b'=' && e == b'y') ∷ (e == b'=' && f == b'y') ∷ x)
        (later_pairs n (c ∷ d ∷ e ∷ f ∷ r) (omega (arith, h))))
later_pairs (suc n) [] h = absurd (omega (arith, h))
later_pairs (suc n) (a ∷ []) h = absurd (omega (arith, h))
later_pairs (suc n) (a ∷ b ∷ []) h = absurd (omega (arith, h))
later_pairs (suc n) (a ∷ b ∷ c ∷ []) h = absurd (omega (arith, h))
later_pairs (suc n) (a ∷ b ∷ c ∷ d ∷ []) h = absurd (omega (arith, h))
later_pairs (suc n) (a ∷ b ∷ c ∷ d ∷ e ∷ []) h = absurd (omega (arith, h))

module _ (p : Bytes) (long : 36 ≤ length p) where
  pub cr_x_dot-each : cr_x_dot p ≡ each 32 at_cr_x_dot p
  unfolding cr_x_dot
  cr_x_dot-each =
      rw (matches-each 0 b'\r' p (omega arith), matches-each 2 b'.' p (omega arith)) (refl)

  pub new_line-each : new_line p ≡ each 32 at_new_line p
  unfolding new_line
  new_line-each =
      rw (matches-each 1 b'\n' p (omega arith), matches-each 0 b'\r' p (omega arith)) (refl)

  pub eq_y-each : eq_y p ≡ each 32 at_eq_y p
  unfolding eq_y
  eq_y-each = rw (matches-each 2 b'=' p (omega arith), matches-each 3 b'y' p (omega arith)) (refl)

  pub nl_dot-each : nl_dot p ≡ each 32 at_nl_dot p
  unfolding nl_dot
  nl_dot-each =
      rw (cr_x_dot-each, new_line-each)
        (each_same (λ v. at_cr_x_dot v && at_new_line v) at_nl_dot 32 p (λ v. ground arith))

  pub eq_y_later-each : eq_y_later p ≡ each 32 at_eq_y_later p
  unfolding eq_y_later
  eq_y_later-each = rw eq_y-each (later_pairs 16 p (omega (arith, long)))

  pub ends-each : ends p ≡ each 32 at_end p
  unfolding ends ends_behind_dot
  ends-each =
      rw
        (
          matches-each 3 b'\r' p (omega arith),
          matches-each 4 b'\n' p (omega arith),
          eq_y_later-each,
          nl_dot-each,
          eq_y-each,
          new_line-each,
        )
        (each_same
          (λ v.
            ((lane 3 v == b'\r' && lane 4 v == b'\n' || at_eq_y_later v) && at_nl_dot v)
            || at_eq_y v && at_new_line v)
          at_end 32 p (λ v. ground arith))
