-- ===== src/Simd/Decode/Avx2/Unescape.antt =====
-- What escapes make of a block, in both ways that the kernel has for it: the bytes behind the "=" that
-- escape are decoded as such, and are not taken away.
use rapidyenc.Base.{
  suc, ◌≤◌, ◌≡◌, refl, sym, ap, ◌∙◌, arith, Bool, true, false, not, ◌&&◌, ◌||◌, [], ◌∷◌, Bytes,
  length, length-drop, drop, replicate, ◌==◌, if◌then◌else◌, Bool-cases, inl, inr,
}
use rapidyenc.Go.Word64.{Word, is_zero, w_and, w_or, w_not, w_add, shift_left, shift_right}
use rapidyenc.Go.Archsimd.{
  load32, broadcast, add, merge, equal_lanes, to_lanes, concat_shift_bytes_right_grouped,
  concat_permute_128_scalars,
}
use rapidyenc.Simd.Decode.Avx2.Tables.{
  permute_a, permute_b, neg_42, neg_106, yenc_offset_of, broadcast_escape_first,
}
use rapidyenc.Simd.Decode.Avx2.Each.{each, skip, skip-drop, equal_lanes-each}
use rapidyenc.Simd.Decode.Avx2.Spread.{bit, spelled, spelled-≡, spread-lower, spread-upper}
use rapidyenc.Simd.Decode.Avx2.Escapes.{with_fix, without_fix, Unescaped, unescape_block, spread}
use rapidyenc.Simd.Decode.Avx2.Chains.{
  escapes, shifted_in, low_bit, or_low_bit, add_low_bit, fix_eq_mask-escapes,
}
use rapidyenc.Simd.Decode.Avx2.Lines.{at_eq}

-- What is added to a byte, by whether it is escaped.
abbrev pub offsets : Word → Bytes
offsets [] = []
offsets (a ∷ x) = (if a then neg_106 else neg_42) ∷ offsets x

-- Every bit of the second word is one of the first.
abbrev pub covers : Word → Word → Bool
covers (a ∷ x) (b ∷ y) = (a || not b) && covers x y
covers x y = true

-- Where no special byte stands behind an "=", every "=" escapes the byte behind it.
untouched :
    (esc : Bool) (m x : Word)
    → length m ≡ length x
    → covers m x ≡ true
    → is_zero (w_and m (shifted_in esc x)) ≡ true
    → (escapes esc x ≡ x) × (w_and m (w_not (shifted_in esc x)) ≡ m)
untouched esc [] [] h c z = (refl, refl)
untouched esc [] (b ∷ x) h c z = absurd (omega (arith, h))
untouched esc (a ∷ m) [] h c z = absurd (omega (arith, h))
untouched esc (a ∷ m) (b ∷ x) h c z =
    let (e, u) = untouched b m x (omega (arith, h)) (ground arith) (ground arith) in
    let head : (not esc && b) ≡ b = ground (arith, c, z) in
    let kept : (a && not esc) ≡ a = ground (arith, c, z) in rw (head, kept, e, u) (refl, refl)

merged :
    (esc : Bool) (x : Word)
    → merge (broadcast neg_106) (yenc_offset_of esc) (esc ∷ spelled 31 x)
      ≡ offsets (esc ∷ spelled 31 x)
unfolding yenc_offset_of broadcast_escape_first
merged true x = refl
merged false x = refl

merged_upper :
    (x : Word)
    → merge (broadcast neg_106) (broadcast neg_42) (spelled 32 x) ≡ offsets (spelled 32 x)
merged_upper x = refl

-- A block by the "=" in it that escape.
abbrev pub unescaped_by : Bool → Word → Bytes → Word → Unescaped
unescaped_by esc f p mask = record {
  mask = w_and mask (w_not (esc ∷ spelled 63 f));
  esc_first = low_bit (bit 0 (skip 63 f)) 64;
  lo = add (load32 p) (offsets (esc ∷ spelled 31 f));
  hi = add (load32 (drop 32 p)) (offsets (spelled 32 (skip 31 f)));
}

length-escapes : (esc : Bool) (x : Word) → length (escapes esc x) ≡ length x
length-escapes esc [] = refl
length-escapes esc (a ∷ x) = ap suc (length-escapes (not esc && a) x)

-- The block by the word that `fixEqMask` gave, and what is then or'ed and spread.
abbrev by_fixed : Bytes → Word → Word → Word → Word → Word → Bytes → Unescaped
by_fixed p mask fixed escaped lower upper yenc_offset = record {
  mask = w_and mask (w_not escaped);
  esc_first = shift_right 63 fixed;
  lo = add (load32 p) (merge (broadcast neg_106) yenc_offset lower);
  hi = add (load32 (drop 32 p)) (merge (broadcast neg_106) (broadcast neg_42) upper);
}

abbrev from_fixed : Bool → Bytes → Word → Word → Unescaped
from_fixed esc p mask fixed =
    let escaped = w_or (shift_left 1 fixed) (low_bit esc 64) in
    by_fixed p mask fixed escaped (spread escaped permute_a) (spread escaped permute_b)
      (yenc_offset_of esc)

from_fixed-unescaped_by :
    (esc : Bool) (p : Bytes) (mask f : Word)
    → from_fixed esc p mask (spelled 64 f) ≡ unescaped_by esc f p mask
from_fixed-unescaped_by esc p mask f =
    let x = spelled 64 f in
    let y = esc ∷ f in
    ap (λ e. by_fixed p mask x e (spread e permute_a) (spread e permute_b) (yenc_offset_of esc))
      (or_low_bit esc x)
    ∙ ap
        (λ l.
          by_fixed p mask x (spelled 64 y) l (spread (spelled 64 y) permute_b) (yenc_offset_of esc))
        (spread-lower y)
    ∙ ap (λ u. by_fixed p mask x (spelled 64 y) (spelled 32 y) u (yenc_offset_of esc))
        (spread-upper y)
    ∙ ap (λ o. record (unescaped_by esc f p mask) { lo = add (load32 p) o }) (merged esc f)

with_fix-unescaped_by :
    (esc : Bool) (p : Bytes) (mask eq : Word)
    → length eq ≡ 64
    → with_fix p mask eq
        (w_add (shift_left 1 eq) (low_bit esc 64))
        (low_bit esc 64)
        (yenc_offset_of esc)
      ≡ unescaped_by esc (escapes esc eq) p mask
unfolding with_fix
with_fix-unescaped_by esc p mask eq h =
    ap (from_fixed esc p mask)
      (fix_eq_mask-escapes esc eq h ∙ spelled-≡ 64 (escapes esc eq) (length-escapes esc eq ∙ h))
    ∙ from_fixed-unescaped_by esc p mask (escapes esc eq)

equal-to_lanes : (x : Word) → equal_lanes (to_lanes x) (replicate (length x) 255) ≡ x
equal-to_lanes [] = refl
equal-to_lanes (true ∷ x) = ap (λ y. true ∷ y) (equal-to_lanes x)
equal-to_lanes (false ∷ x) = ap (λ y. false ∷ y) (equal-to_lanes x)

equal_lanes_comm : (x y : Bytes) → equal_lanes x y ≡ equal_lanes y x
equal_lanes_comm [] [] = refl
equal_lanes_comm [] (b ∷ y) = refl
equal_lanes_comm (a ∷ x) [] = refl
equal_lanes_comm (a ∷ x) (b ∷ y) =
    let same : (a == b) ≡ (b == a) = ground arith in rw (same, equal_lanes_comm x y) refl

behind_eq :
    (p : Bytes)
    → equal_lanes
        (concat_shift_bytes_right_grouped
          (to_lanes (each 32 at_eq p))
          (concat_permute_128_scalars (to_lanes (each 32 at_eq p)) 2 0 (broadcast b'='))
          15)
        (broadcast 255)
      ≡ false ∷ each 31 at_eq p
behind_eq p = ap (λ x. false ∷ x) (equal-to_lanes (each 31 at_eq p))

behind_eq_upper :
    (p : Bytes)
    → 64 ≤ length p
    → equal_lanes (broadcast b'=') (load32 (drop 31 p)) ≡ each 32 at_eq (skip 31 p)
behind_eq_upper p long =
    equal_lanes_comm (broadcast b'=') (load32 (drop 31 p))
    ∙ equal_lanes-each 0 b'=' 32 (drop 31 p) (omega (arith, long, length-drop 31 p))
    ∙ ap (each 32 at_eq) (sym (skip-drop 31 p))

merged_at_first :
    (esc : Bool) (x : Word)
    → merge (broadcast neg_106) (yenc_offset_of esc) (false ∷ spelled 31 x)
      ≡ offsets (esc ∷ spelled 31 x)
unfolding yenc_offset_of broadcast_escape_first
merged_at_first true x = refl
merged_at_first false x = refl

-- The block by the lanes behind an "=".
abbrev by_lanes : Bytes → Word → Word → Word → Word → Bytes → Unescaped
by_lanes p mask eq lower upper yenc_offset = record {
  mask = mask;
  esc_first = shift_right 63 eq;
  lo = add (load32 p) (merge (broadcast neg_106) yenc_offset lower);
  hi = add (load32 (drop 32 p)) (merge (broadcast neg_106) (broadcast neg_42) upper);
}

without_fix-unescaped_by :
    (esc : Bool) (p : Bytes) (mask : Word)
    → 64 ≤ length p
    → w_and mask (w_not (shifted_in esc (each 64 at_eq p))) ≡ mask
    → without_fix p mask (each 64 at_eq p) (yenc_offset_of esc)
      ≡ unescaped_by esc (each 64 at_eq p) p mask
unfolding without_fix
without_fix-unescaped_by esc p mask long h =
    let eq = each 64 at_eq p in
    ap
      (λ b.
        by_lanes p mask eq b (equal_lanes (broadcast b'=') (load32 (drop 31 p)))
          (yenc_offset_of esc))
      (behind_eq p)
    ∙ ap (λ b. by_lanes p mask eq (false ∷ each 31 at_eq p) b (yenc_offset_of esc))
        (behind_eq_upper p long)
    ∙ ap (λ o. record (unescaped_by esc eq p mask) { mask = mask; lo = add (load32 p) o })
        (merged_at_first esc eq)
    ∙ ap (λ m. record (unescaped_by esc eq p mask) { mask = m }) (sym h)

-- With or without an escape carried in, and for a mask of 64 bits that has every "=" of the block, the
-- block is the one in which exactly the bytes behind the "=" that escape, told one after the other,
-- are decoded as escaped and taken off the mask, whether `fixEqMask` is called or not.
pub unescape_block-unescaped_by :
    (esc : Bool) (p : Bytes) (mask : Word)
    → 64 ≤ length p
    → length mask ≡ 64
    → covers mask (each 64 at_eq p) ≡ true
    → unescape_block p mask (each 64 at_eq p) (low_bit esc 64) (yenc_offset_of esc)
      ≡ unescaped_by esc (escapes esc (each 64 at_eq p)) p mask
unfolding unescape_block
unescape_block-unescaped_by esc p mask long w c =
    let eq = each 64 at_eq p in
    let shift1 = w_add (shift_left 1 eq) (low_bit esc 64) in
    let choice : Bool → Unescaped = λ b.
      if not b
      then with_fix p mask eq shift1 (low_bit esc 64) (yenc_offset_of esc)
      else without_fix p mask eq (yenc_offset_of esc) in
    elim (Bool-cases (is_zero (w_and mask shift1))) [
      | inl apart ↦
          let (e, u) =
            untouched esc mask eq w c
              (ap (λ s. is_zero (w_and mask s)) (sym (add_low_bit esc eq)) ∙ apart) in
          ap choice apart
          ∙ without_fix-unescaped_by esc p mask long u
          ∙ ap (λ f. unescaped_by esc f p mask) (sym e)
      | inr touching ↦ ap choice touching ∙ with_fix-unescaped_by esc p mask eq refl
    ]
