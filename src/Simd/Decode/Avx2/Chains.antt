-- ===== src/Simd/Decode/Avx2/Chains.antt =====
-- Escapes told one byte after the other, and that `fixEqMask` finds the same ones.
use rapidyenc.Base.{
  ℕ, zero, suc, ◌≡◌, refl, ap, sym, ◌∙◌, Bool, true, false, not, ◌&&◌, [], ◌∷◌, length, take,
  replicate,
}
use rapidyenc.Go.Word64.{Word, w_and, w_or, w_xor, w_not, w_add, add_carry, xor, shift_left}
use rapidyenc.Simd.Decode.Avx2.Escapes.{even_bits, fix_eq_mask}

-- Of the "=" that the mask has, those that escape the byte behind them: an escaped one does not.
abbrev pub escapes : Bool → Word → Word
escapes esc [] = []
escapes esc (a ∷ x) = (not esc && a) ∷ escapes (not esc && a) x

-- `(x << 1) | b`, and so also `(x << 1) + b`
abbrev pub shifted_in : Bool → Word → Word
shifted_in b [] = []
shifted_in b (a ∷ x) = b ∷ shifted_in a x

abbrev alternating : Bool → ℕ → Word
alternating e zero = []
alternating e (suc n) = e ∷ alternating (not e) n

abbrev fixed : Bool → Word → Word → Word → Word
fixed c mask shift1 even =
    w_and (w_xor (add_carry c mask (w_and (w_and mask (w_not shift1)) even)) even) mask

-- Inside of a group, a bit of the sum tells by the carry whether the group started on an even bit.
fixed-alternating :
    (in_group c e : Bool) (x : Word)
    → fixed (in_group && c) x (shifted_in in_group x) (alternating e (length x))
      ≡ escapes (in_group && xor c e) x
fixed-alternating g c e [] = refl
fixed-alternating false c true (false ∷ x) = ap (λ y. false ∷ y) (fixed-alternating false c false x)
fixed-alternating false c false (false ∷ x) = ap (λ y. false ∷ y) (fixed-alternating false c true x)
fixed-alternating true true true (false ∷ x) =
    ap (λ y. false ∷ y) (fixed-alternating false true false x)
fixed-alternating true true false (false ∷ x) =
    ap (λ y. false ∷ y) (fixed-alternating false true true x)
fixed-alternating true false true (false ∷ x) =
    ap (λ y. false ∷ y) (fixed-alternating false true false x)
fixed-alternating true false false (false ∷ x) =
    ap (λ y. false ∷ y) (fixed-alternating false true true x)
fixed-alternating false c true (true ∷ x) = ap (λ y. true ∷ y) (fixed-alternating true true false x)
fixed-alternating false c false (true ∷ x) =
    ap (λ y. true ∷ y) (fixed-alternating true false true x)
fixed-alternating true true true (true ∷ x) =
    ap (λ y. true ∷ y) (fixed-alternating true true false x)
fixed-alternating true true false (true ∷ x) =
    ap (λ y. false ∷ y) (fixed-alternating true true true x)
fixed-alternating true false true (true ∷ x) =
    ap (λ y. false ∷ y) (fixed-alternating true false false x)
fixed-alternating true false false (true ∷ x) =
    ap (λ y. true ∷ y) (fixed-alternating true false true x)

pub shifted_in-take : (b : Bool) (x : Word) → shifted_in b x ≡ take (length x) (b ∷ x)
shifted_in-take b [] = refl
shifted_in-take b (a ∷ x) = ap (λ y. b ∷ y) (shifted_in-take a x)

-- `escFirst`, the lowest bit of a word.
abbrev pub low_bit : Bool → ℕ → Word
low_bit b zero = []
low_bit b (suc n) = b ∷ replicate n false

add_zeros : (x : Word) → w_add x (replicate (length x) false) ≡ x
add_zeros [] = refl
add_zeros (true ∷ x) = ap (λ y. true ∷ y) (add_zeros x)
add_zeros (false ∷ x) = ap (λ y. false ∷ y) (add_zeros x)

or_zeros : (x : Word) → w_or x (replicate (length x) false) ≡ x
or_zeros [] = refl
or_zeros (true ∷ x) = ap (λ y. true ∷ y) (or_zeros x)
or_zeros (false ∷ x) = ap (λ y. false ∷ y) (or_zeros x)

pub length-shifted_in : (b : Bool) (x : Word) → length (shifted_in b x) ≡ length x
length-shifted_in b [] = refl
length-shifted_in b (a ∷ x) = ap suc (length-shifted_in a x)

add_zeros_shifted :
    (a : Bool) (x : Word)
    → w_add (take (length x) (a ∷ x)) (replicate (length x) false) ≡ shifted_in a x
add_zeros_shifted a x =
    let r = add_zeros (shifted_in a x) in
    rw (sym (shifted_in-take a x)) (rw (length-shifted_in a x) at r)

or_zeros_shifted :
    (a : Bool) (x : Word)
    → w_or (take (length x) (a ∷ x)) (replicate (length x) false) ≡ shifted_in a x
or_zeros_shifted a x =
    let r = or_zeros (shifted_in a x) in
    rw (sym (shifted_in-take a x)) (rw (length-shifted_in a x) at r)

-- `(x << 1) + b`
pub add_low_bit :
    (b : Bool) (x : Word) → w_add (shift_left 1 x) (low_bit b (length x)) ≡ shifted_in b x
add_low_bit b [] = refl
add_low_bit true (a ∷ x) = ap (λ y. true ∷ y) (add_zeros_shifted a x)
add_low_bit false (a ∷ x) = ap (λ y. false ∷ y) (add_zeros_shifted a x)

-- `(x << 1) | b`
pub or_low_bit :
    (b : Bool) (x : Word) → w_or (shift_left 1 x) (low_bit b (length x)) ≡ shifted_in b x
or_low_bit b [] = refl
or_low_bit b (a ∷ x) = ap (λ y. b ∷ y) (or_zeros_shifted a x)

fixed-escapes :
    (esc : Bool) (x : Word)
    → fixed false x (shifted_in esc x) (alternating true (length x)) ≡ escapes esc x
fixed-escapes true x = fixed-alternating true false true x
fixed-escapes false x = fixed-alternating false false true x

-- On the bits of a block, with the bit of an escape in front of it, `fixEqMask` keeps the "=" that
-- escape the byte behind them, told one byte after the other, and no others.
pub fix_eq_mask-escapes :
    (esc : Bool) (mask : Word)
    → length mask ≡ 64
    → fix_eq_mask mask (w_add (shift_left 1 mask) (low_bit esc 64)) ≡ escapes esc mask
unfolding fix_eq_mask even_bits
fix_eq_mask-escapes esc mask h =
    let shifted =
      ap (λ n. w_add (shift_left 1 mask) (low_bit esc n)) (sym h) ∙ add_low_bit esc mask in
    ap (λ s. fixed false mask s even_bits) shifted
    ∙ ap (λ n. fixed false mask (shifted_in esc mask) (alternating true n)) (sym h)
    ∙ fixed-escapes esc mask
