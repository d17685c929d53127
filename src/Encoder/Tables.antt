-- ===== src/Encoder/Tables.antt =====
-- What the tables `escapeLUT` and `escapedLUT` hold, byte by byte.
use rapidyenc.Base.{
  ℕ, zero, suc, ◌<◌, ◌≡◌, refl, arith, Bool, true, ◌&&◌, ◌==◌, [], ◌∷◌, Bytes, length,
  if◌then◌else◌,
}
use rapidyenc.Encoder.{escaped, mid_char, first_char, last_char, line_char}
use rapidyenc.Encoder.Reference.{mid_code, first_code, last_code}

same : Bytes → Bytes → Bool
same [] [] = true
same (x ∷ xs) (y ∷ ys) = x == y && same xs ys
same _ _ = Bool.false

same→eq : (xs ys : Bytes) → same xs ys ≡ true → xs ≡ ys
unfolding same
same→eq [] [] h = refl
same→eq [] (y ∷ ys) h = cc
same→eq (x ∷ xs) [] h = cc
same→eq (x ∷ xs) (y ∷ ys) h = ground (arith, same→eq xs ys)

module _ (f g : ℕ → Bytes) where
  agree_below : ℕ → Bool
  unfolding same
  agree_below zero = true
  agree_below (suc n) = same (f n) (g n) && agree_below n

  agree_below→eq : (n : ℕ) → agree_below n ≡ true → (c : ℕ) → c < n → f c ≡ g c
  unfolding agree_below
  agree_below→eq zero e c h = absurd (omega arith)
  agree_below→eq (suc n) e c h =
      ground (arith, agree_below→eq n (ground arith) c, same→eq (f n) (g n))

pub mid_char-mid_code : (c : ℕ) → c < 256 → mid_char c ≡ mid_code c
unfolding agree_below mid_char
mid_char-mid_code = agree_below→eq _ _ 256 refl

pub first_char-first_code : (c : ℕ) → c < 256 → first_char c ≡ first_code c
unfolding agree_below first_char
first_char-first_code = agree_below→eq _ _ 256 refl

pub last_char-last_code : (c : ℕ) → c < 256 → last_char c ≡ last_code c
unfolding agree_below last_char
last_char-last_code = agree_below→eq _ _ 256 refl

pub line_char-first_code : (c : ℕ) → c < 256 → line_char c ≡ b'\r' ∷ b'\n' ∷ first_code c
unfolding agree_below line_char
line_char-first_code = agree_below→eq _ (λ c. b'\r' ∷ b'\n' ∷ first_code c) 256 refl

first_length :
    (c : ℕ) → c < 256 → (if escaped c == 0 then 1 else 2) ∷ [] ≡ length (first_code c) ∷ []
unfolding agree_below escaped
first_length =
    agree_below→eq (λ c. (if escaped c == 0 then 1 else 2) ∷ []) (λ c. length (first_code c) ∷ [])
      256 refl

-- The column behind the first byte of a line is what was written of it.
pub escaped-first_code :
    (c : ℕ) → c < 256 → (if escaped c == 0 then 1 else 2) ≡ length (first_code c)
escaped-first_code c h = cc (first_length c h)
