-- ===== src/Simd/Decode/Avx2/Spread.antt =====
-- The bits of a word as lanes.
use rapidyenc.Base.{
  ℕ, zero, suc, ◌≡◌, refl, ap, ◌∙◌, arith, Bool, true, false, ◌&&◌, [], ◌∷◌, ◌++◌, length, drop,
  replicate,
}
use rapidyenc.Go.Word64.{Word, value, is_zero, w_xor}
use rapidyenc.Go.Archsimd.{to_mask}
use rapidyenc.Simd.Decode.Avx2.Each.{skip}
use rapidyenc.Simd.Decode.Avx2.Tables.{
  and_lanes, broadcast_word, permute_a, permute_b, permute_bit_mask,
}
use rapidyenc.Simd.Decode.Avx2.Escapes.{spread}

abbrev pub bit : ℕ → Word → Bool
bit n [] = false
bit zero (a ∷ x) = a
bit (suc n) (a ∷ x) = bit n x

-- A word of `n` bits, spelled out.
abbrev pub spelled : ℕ → Word → Word
spelled zero x = []
spelled (suc n) x = bit 0 x ∷ spelled n (drop 1 x)

pub spelled-≡ : (n : ℕ) (x : Word) → length x ≡ n → x ≡ spelled n x
spelled-≡ zero [] h = refl
spelled-≡ zero (a ∷ x) h = absurd (omega (arith, h))
spelled-≡ (suc n) [] h = absurd (omega (arith, h))
spelled-≡ (suc n) (a ∷ x) h = ap (λ y. a ∷ y) (spelled-≡ n x (omega (arith, h)))

-- What holds of all words of `n` bits.
abbrev every_word : ℕ → (Word → Bool) → Bool
every_word zero f = f []
every_word (suc n) f = every_word n (λ x. f (false ∷ x)) && every_word n (λ x. f (true ∷ x))

every_word-spelled :
    (n : ℕ) (f : Word → Bool) (x : Word) → every_word n f ≡ true → f (spelled n x) ≡ true
every_word-spelled zero f x h = h
every_word-spelled (suc n) f [] h = every_word-spelled n (λ y. f (false ∷ y)) [] (ground arith)
every_word-spelled (suc n) f (false ∷ x) h =
    every_word-spelled n (λ y. f (false ∷ y)) x (ground arith)
every_word-spelled (suc n) f (true ∷ x) h =
    every_word-spelled n (λ y. f (true ∷ y)) x (ground arith)

abbrev lanes_of : Word → Word
lanes_of x = to_mask (and_lanes (replicate 8 (value x)) (1 ∷ 2 ∷ 4 ∷ 8 ∷ 16 ∷ 32 ∷ 64 ∷ 128 ∷ []))

-- Words of one length with nothing in their difference are the same.
is_zero-xor : (x y : Word) → length x ≡ length y → is_zero (w_xor x y) ≡ true → x ≡ y
is_zero-xor [] [] h e = refl
is_zero-xor [] (b ∷ y) h e = absurd (omega (arith, h))
is_zero-xor (a ∷ x) [] h e = absurd (omega (arith, h))
is_zero-xor (true ∷ x) (true ∷ y) h e = ap (λ z. true ∷ z) (is_zero-xor x y (omega (arith, h)) e)
is_zero-xor (true ∷ x) (false ∷ y) h e = absurd (ground (arith, e))
is_zero-xor (false ∷ x) (true ∷ y) h e = absurd (ground (arith, e))
is_zero-xor (false ∷ x) (false ∷ y) h e = ap (λ z. false ∷ z) (is_zero-xor x y (omega (arith, h)) e)

-- A byte, and the mask of its bits.
lanes_of-spelled : (x : Word) → lanes_of (spelled 8 x) ≡ spelled 8 x
lanes_of-spelled x =
    is_zero-xor (lanes_of (spelled 8 x)) (spelled 8 x) refl
      (every_word-spelled 8 (λ y. is_zero (w_xor (lanes_of y) y)) x refl)

abbrev parts : Word → Word → Word → Word → Word
parts a b c d = lanes_of a ++ (lanes_of b ++ (lanes_of c ++ lanes_of d))

first_bytes :
    (x : Word)
    → spread (spelled 64 x) permute_a
      ≡ parts (spelled 8 x) (spelled 8 (skip 8 x)) (spelled 8 (skip 16 x)) (spelled 8 (skip 24 x))
unfolding spread broadcast_word permute_a permute_bit_mask
first_bytes x = refl

last_bytes :
    (x : Word)
    → spread (spelled 64 x) permute_b
      ≡ parts
          (spelled 8 (skip 32 x))
          (spelled 8 (skip 40 x))
          (spelled 8 (skip 48 x))
          (spelled 8 (skip 56 x))
unfolding spread broadcast_word permute_b permute_bit_mask
last_bytes x = refl

parts-spelled :
    (x : Word)
    → parts (spelled 8 x) (spelled 8 (skip 8 x)) (spelled 8 (skip 16 x)) (spelled 8 (skip 24 x))
      ≡ spelled 32 x
parts-spelled x =
    ap
      (λ y.
        y
        ++ (lanes_of (spelled 8 (skip 8 x))
            ++ (lanes_of (spelled 8 (skip 16 x)) ++ lanes_of (spelled 8 (skip 24 x)))))
      (lanes_of-spelled x)
    ∙ ap
        (λ y.
          spelled 8 x
          ++ (y ++ (lanes_of (spelled 8 (skip 16 x)) ++ lanes_of (spelled 8 (skip 24 x)))))
        (lanes_of-spelled (skip 8 x))
    ∙ ap (λ y. spelled 16 x ++ (y ++ lanes_of (spelled 8 (skip 24 x))))
        (lanes_of-spelled (skip 16 x))
    ∙ ap (λ y. spelled 24 x ++ y) (lanes_of-spelled (skip 24 x))

-- The lanes of the lower and of the upper half are the bits of the word.
pub spread-lower : (x : Word) → spread (spelled 64 x) permute_a ≡ spelled 32 x
spread-lower x = first_bytes x ∙ parts-spelled x

pub spread-upper : (x : Word) → spread (spelled 64 x) permute_b ≡ spelled 32 (skip 32 x)
spread-upper x = last_bytes x ∙ parts-spelled (skip 32 x)
