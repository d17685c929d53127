-- ===== src/Go/Word64.antt =====
-- Go's `uint64` where the code works on its bits: the list of the 64 bits, the lowest first.
use rapidyenc.Base.Bits.{mod_pow-suc}
use rapidyenc.Base.{
  ℕ, zero, suc, ◌+◌, ◌-◌, ◌*◌, ◌/◌, ◌%◌, ◌^◌, ◌≡◌, arith, Bool, true, false, not, ◌&&◌, ◌||◌, List,
  [], ◌∷◌, ◌++◌, length, take, drop, replicate, ◌==◌,
}

abbrev pub Word : Type 0
Word = List Bool

abbrev pub zip_with {ℓ} : {A : Type ℓ} → (A → A → A) → List A → List A → List A
zip_with f [] ys = []
zip_with f (x ∷ xs) [] = []
zip_with f (x ∷ xs) (y ∷ ys) = f x y ∷ zip_with f xs ys

abbrev pub xor : Bool → Bool → Bool
xor true b = not b
xor false b = b

abbrev pub bit_value : Bool → ℕ
bit_value true = 1
bit_value false = 0

-- `&`, `|`, `^` and the complement.
abbrev pub w_and : Word → Word → Word
w_and = zip_with (λ a b. a && b)

abbrev pub w_or : Word → Word → Word
w_or = zip_with (λ a b. a || b)

abbrev pub w_xor : Word → Word → Word
w_xor = zip_with xor

abbrev pub w_not : Word → Word
w_not [] = []
w_not (a ∷ x) = not a ∷ w_not x

-- The bits of a sum, with a carry into the lowest; the carry out of the highest is lost.
abbrev pub add_carry : Bool → Word → Word → Word
add_carry c [] y = []
add_carry c (a ∷ x) [] = []
add_carry c (a ∷ x) (b ∷ y) = xor (xor a b) c ∷ add_carry (a && b || c && (a || b)) x y

abbrev pub w_add : Word → Word → Word
w_add = add_carry false

-- `x << n` and `x >> n`
abbrev pub shift_left : ℕ → Word → Word
shift_left n x = take (length x) (replicate n false ++ x)

abbrev pub shift_right : ℕ → Word → Word
shift_right n x = drop n x ++ replicate (length x - length (drop n x)) false

-- `x == 0` and `x == y`
abbrev pub is_zero : Word → Bool
is_zero [] = true
is_zero (a ∷ x) = not a && is_zero x

abbrev pub same_word : Word → Word → Bool
same_word x y = is_zero (w_xor x y)

-- `bits.OnesCount64`
abbrev pub ones_count : Word → ℕ
ones_count [] = 0
ones_count (a ∷ x) = bit_value a + ones_count x

-- The number that a word is, and the lowest bits of a number.
abbrev pub value : Word → ℕ
value [] = 0
value (a ∷ x) = bit_value a + 2 * value x

abbrev pub word : ℕ → ℕ → Word
word zero n = []
word (suc w) n = (n % 2 == 1) ∷ word w (n / 2)

abbrev pub carry : Bool → Bool → Bool → Bool
carry c a b = a && b || c && (a || b)

full_adder :
    (c a b : Bool) (m n : ℕ)
    → ((bit_value a + 2 * m + (bit_value b + 2 * n) + bit_value c) / 2
        ≡ m + n + bit_value (carry c a b))
      × ((bit_value a + 2 * m + (bit_value b + 2 * n) + bit_value c) % 2
          ≡ bit_value (xor (xor a b) c))
full_adder true true true m n = (omega arith, omega arith)
full_adder true true false m n = (omega arith, omega arith)
full_adder true false true m n = (omega arith, omega arith)
full_adder true false false m n = (omega arith, omega arith)
full_adder false true true m n = (omega arith, omega arith)
full_adder false true false m n = (omega arith, omega arith)
full_adder false false true m n = (omega arith, omega arith)
full_adder false false false m n = (omega arith, omega arith)

-- The sum is the sum of the numbers, wrapped at the width of the words.
pub value-add_carry :
    (c : Bool) (x y : Word)
    → length x ≡ length y
    → value (add_carry c x y) ≡ (value x + value y + bit_value c) % 2 ^ length x
value-add_carry c [] [] h = omega arith
value-add_carry c [] (b ∷ y) h = absurd (omega (arith, h))
value-add_carry c (a ∷ x) [] h = absurd (omega (arith, h))
value-add_carry c (a ∷ x) (b ∷ y) h =
    let upper = value-add_carry (carry c a b) x y (omega (arith, h)) in
    let digit = full_adder c a b (value x) (value y) in
    let halves = mod_pow-suc (length x) (value (a ∷ x) + value (b ∷ y) + bit_value c) in
    rw (halves, digit.0, digit.1) (omega (arith, upper))
