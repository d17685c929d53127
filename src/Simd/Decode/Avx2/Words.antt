-- ===== src/Simd/Decode/Avx2/Words.antt =====
-- Words of which one is nothing where the other is not.
use rapidyenc.Base.{
  ℕ, zero, suc, ◌≡◌, refl, sym, ap, ◌∙◌, arith, Bool, true, false, ◌&&◌, ◌||◌, [], ◌∷◌, ◌++◌,
  length, replicate,
}
use rapidyenc.Go.Word64.{Word, is_zero, w_or}

pub or_false : (x : Bool) → (x || false) ≡ x
or_false true = refl
or_false false = refl

pub or_nothing : (x : Word) (n : ℕ) → length x ≡ n → w_or x (replicate n false) ≡ x
or_nothing [] n h = refl
or_nothing (a ∷ x) zero h = absurd (omega (arith, h))
or_nothing (a ∷ x) (suc n) h = rw (or_false a, or_nothing x n (omega (arith, h))) refl

pub nothing_or : (y : Word) → w_or (replicate (length y) false) y ≡ y
nothing_or [] = refl
nothing_or (a ∷ y) = ap (λ z. a ∷ z) (nothing_or y)

pub or_apart :
    (x y : Word) → w_or (x ++ replicate (length y) false) (replicate (length x) false ++ y) ≡ x ++ y
or_apart [] y = nothing_or y
or_apart (a ∷ x) y = rw (or_false a) (ap (λ z. a ∷ z) (or_apart x y))

pub w_or_assoc : (x y z : Word) → w_or (w_or x y) z ≡ w_or x (w_or y z)
w_or_assoc [] y z = refl
w_or_assoc (a ∷ x) [] z = refl
w_or_assoc (a ∷ x) (b ∷ y) [] = refl
w_or_assoc (a ∷ x) (b ∷ y) (c ∷ z) = rw (w_or_assoc x y z) (ground arith)

is_zero-append : (x y : Word) → is_zero (x ++ y) ≡ (is_zero x && is_zero y)
is_zero-append [] y = refl
is_zero-append (a ∷ x) y = rw (is_zero-append x y) (ground arith)

is_zero-both : (x y : Word) → length x ≡ length y → is_zero (w_or x y) ≡ (is_zero x && is_zero y)
is_zero-both [] [] h = refl
is_zero-both [] (b ∷ y) h = absurd (omega (arith, h))
is_zero-both (a ∷ x) [] h = absurd (omega (arith, h))
is_zero-both (a ∷ x) (b ∷ y) h =
    let rest : length x ≡ length y = omega (arith, h) in rw (is_zero-both x y rest) (ground arith)

pub is_zero-or : (x y : Word) → length x ≡ length y → is_zero (w_or x y) ≡ is_zero (x ++ y)
is_zero-or x y h = is_zero-both x y h ∙ sym (is_zero-append x y)
