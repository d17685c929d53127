-- ===== src/Crc/Product.antt =====
-- `crcMul` multiplies two registers: it is linear in both, and moving one of them over a zero byte
-- moves the product.
use Prim.Native.Nat.{bit_xor}
use mathlib.Core.Path.{ap₂}
use rapidyenc.Base.{
  ℕ, zero, suc, ◌+◌, ◌*◌, ◌/◌, ◌%◌, ◌^◌, ◌<◌, ◌≡◌, refl, sym, ap, ◌∙◌, arith, [], ◌∷◌, Bytes,
  replicate, ◌==◌, Bool, true, false, ◌&&◌, Bool-cases, inl, inr,
}
use rapidyenc.Base.Bits.{
  IsLinear, sum-IsLinear, compose-IsLinear, double-IsLinear, bit_xor-zero, bit_xor_swap,
  mod_pow-IsLinear, div_pow-IsLinear, mul_pow-IsLinear, same_powers, linear-powers, Agree,
  linear-Agree, both,
}
use rapidyenc.Go.Crc32.{table, raw_update}
use rapidyenc.Crc.{clmul_loop, clmul32, reduce, crc_mul, shift_zeros}
use rapidyenc.Crc.Linear.{picked, picked-IsLinear, table-IsLinear, table-lt, raw_update-cons}

-- One round of `clmul32`.
abbrev term : ℕ → ℕ → ℕ → ℕ
term i x b = picked (x * 2 ^ i % 2 ^ 64) (b / 2 ^ i)

clmul_loop-suc :
    (k i x b res : ℕ)
    → clmul_loop (suc k) i x b res ≡ clmul_loop k (i + 1) x b (bit_xor res (term i x b))
unfolding clmul_loop picked
clmul_loop-suc k i x b res = elim (Bool-cases (b / 2 ^ i % 2 == 1)) [
  | inl one ↦ let e : (b / 2 ^ i % 2 == 0) ≡ false = ground arith in rw (one, e) refl
  | inr not_one ↦
      let e : (b / 2 ^ i % 2 == 0) ≡ true = ground arith in rw (not_one, e, bit_xor-zero res) refl
]

term-left : (i b : ℕ) → IsLinear (λ x. term i x b)
unfolding picked
term-left i b x y = elim (Bool-cases (b / 2 ^ i % 2 == 1)) [
  | inl one ↦
      rw one (
        ap (λ z. z % 2 ^ 64) (mul_pow-IsLinear i x y) ∙ mod_pow-IsLinear 64 (x * 2 ^ i) (y * 2 ^ i))
  | inr not_one ↦ rw not_one refl
]

term-right : (i x : ℕ) → IsLinear (term i x)
term-right i x b c =
    ap (picked (x * 2 ^ i % 2 ^ 64)) (div_pow-IsLinear i b c)
    ∙ picked-IsLinear (x * 2 ^ i % 2 ^ 64) (b / 2 ^ i) (c / 2 ^ i)

clmul_loop-left :
    (k i b x y r s : ℕ)
    → clmul_loop k i (bit_xor x y) b (bit_xor r s)
      ≡ bit_xor (clmul_loop k i x b r) (clmul_loop k i y b s)
unfolding clmul_loop
clmul_loop-left zero i b x y r s = refl
clmul_loop-left (suc k) i b x y r s =
    clmul_loop-suc k i (bit_xor x y) b (bit_xor r s)
    ∙ ap (clmul_loop k (i + 1) (bit_xor x y) b) (
        ap (bit_xor (bit_xor r s)) (term-left i b x y) ∙ bit_xor_swap r s (term i x b) (term i y b))
    ∙ clmul_loop-left k (i + 1) b x y (bit_xor r (term i x b)) (bit_xor s (term i y b))
    ∙ ap₂ bit_xor (sym (clmul_loop-suc k i x b r)) (sym (clmul_loop-suc k i y b s))

clmul_loop-right :
    (k i x b c r s : ℕ)
    → clmul_loop k i x (bit_xor b c) (bit_xor r s)
      ≡ bit_xor (clmul_loop k i x b r) (clmul_loop k i x c s)
unfolding clmul_loop
clmul_loop-right zero i x b c r s = refl
clmul_loop-right (suc k) i x b c r s =
    clmul_loop-suc k i x (bit_xor b c) (bit_xor r s)
    ∙ ap (clmul_loop k (i + 1) x (bit_xor b c)) (
        ap (bit_xor (bit_xor r s)) (term-right i x b c)
        ∙ bit_xor_swap r s (term i x b) (term i x c))
    ∙ clmul_loop-right k (i + 1) x b c (bit_xor r (term i x b)) (bit_xor s (term i x c))
    ∙ ap₂ bit_xor (sym (clmul_loop-suc k i x b r)) (sym (clmul_loop-suc k i x c s))

clmul32-left : (b : ℕ) → IsLinear (λ a. clmul32 a b)
unfolding clmul32
clmul32-left b x y = clmul_loop-left 32 0 b x y 0 0

clmul32-right : (a : ℕ) → IsLinear (clmul32 a)
unfolding clmul32
clmul32-right a b c = clmul_loop-right 32 0 a b c 0 0

-- A byte of a number, fed into a register that depends on it.
feed-IsLinear :
    (f g : ℕ → ℕ) → IsLinear f → IsLinear g → IsLinear (λ p. table (bit_xor (f p) (g p)))
feed-IsLinear f g lf lg =
    compose-IsLinear table (λ p. bit_xor (f p) (g p)) table-IsLinear (sum-IsLinear f g lf lg)

byte-IsLinear : (k : ℕ) → IsLinear (λ p. p / 2 ^ k % 256)
byte-IsLinear k =
    compose-IsLinear (λ p. p % 256) (λ p. p / 2 ^ k) (mod_pow-IsLinear 8) (div_pow-IsLinear k)

abbrev byte : ℕ → ℕ → ℕ
byte k p = p / 2 ^ k % 256

abbrev fed : ℕ → ℕ
fed p = table (
    bit_xor (table (bit_xor (table (bit_xor (table (bit_xor 0 (p % 256))) (byte 8 p))) (byte 16 p)))
      (byte 24 p))

reduce-fed : (p : ℕ) → reduce p ≡ bit_xor (fed p) (p / 2 ^ 32 % 2 ^ 32)
unfolding reduce raw_update
reduce-fed p =
    ap (λ x. bit_xor x (p / 2 ^ 32 % 2 ^ 32))
      (raw_update-cons 0 (p % 256) (byte 8 p ∷ byte 16 p ∷ byte 24 p ∷ [])
        ∙ raw_update-cons _ (byte 8 p) (byte 16 p ∷ byte 24 p ∷ [])
        ∙ raw_update-cons _ (byte 16 p) (byte 24 p ∷ [])
        ∙ raw_update-cons _ (byte 24 p) [])

fed-IsLinear : IsLinear fed
fed-IsLinear =
    let l0 = feed-IsLinear (λ p. 0) (λ p. p % 256) (λ a b. refl) (mod_pow-IsLinear 8) in
    let l1 = feed-IsLinear _ (byte 8) l0 (byte-IsLinear 8) in
    let l2 = feed-IsLinear _ (byte 16) l1 (byte-IsLinear 16) in
    feed-IsLinear _ (byte 24) l2 (byte-IsLinear 24)

reduce-IsLinear : IsLinear reduce
reduce-IsLinear p q =
    reduce-fed (bit_xor p q)
    ∙ sum-IsLinear fed (λ x. x / 2 ^ 32 % 2 ^ 32) fed-IsLinear
        (compose-IsLinear (λ x. x % 2 ^ 32) (λ x. x / 2 ^ 32) (mod_pow-IsLinear 32)
          (div_pow-IsLinear 32))
        p q
    ∙ ap₂ bit_xor (sym (reduce-fed p)) (sym (reduce-fed q))

low_double-IsLinear : IsLinear (λ p. p * 2 % 2 ^ 64)
low_double-IsLinear =
    compose-IsLinear (λ p. p % 2 ^ 64) (λ p. p * 2) (mod_pow-IsLinear 64) double-IsLinear

finish-IsLinear : IsLinear (λ p. reduce (p * 2 % 2 ^ 64))
finish-IsLinear = compose-IsLinear reduce (λ p. p * 2 % 2 ^ 64) reduce-IsLinear low_double-IsLinear

crc_mul-left : (b : ℕ) → IsLinear (λ a. crc_mul a b)
unfolding crc_mul
crc_mul-left b =
    compose-IsLinear (λ p. reduce (p * 2 % 2 ^ 64)) (λ a. clmul32 a b) finish-IsLinear
      (clmul32-left b)

crc_mul-right : (a : ℕ) → IsLinear (crc_mul a)
unfolding crc_mul
crc_mul-right a =
    compose-IsLinear (λ p. reduce (p * 2 % 2 ^ 64)) (clmul32 a) finish-IsLinear (clmul32-right a)

-- The register 0x80000000 stands for 1.
one_check : same_powers 32 0 (λ a. crc_mul a 0x80000000) (λ a. a) ≡ true
unfolding crc_mul raw_update
one_check = refl

crc_mul-one : (a : ℕ) → a < 2 ^ 32 → crc_mul a 0x80000000 ≡ a
crc_mul-one =
    linear-powers 32 (λ a. crc_mul a 0x80000000) (λ a. a) (crc_mul-left 0x80000000) (λ a b. refl)
      one_check

-- For the powers of two as second factor, by computation; for the others since all is linear.
abbrev moves : ℕ → ℕ → Bool
moves zero i = true
moves (suc k) i =
    same_powers 32 0 (λ a. crc_mul a (table (2 ^ i))) (λ a. table (crc_mul a (2 ^ i)))
    && moves k (i + 1)

moves_check : moves 32 0 ≡ true
unfolding crc_mul table raw_update
moves_check = refl

moves-Agree :
    (k i a : ℕ)
    → moves k i ≡ true
    → a < 2 ^ 32
    → Agree k i (λ b. crc_mul a (table b)) (λ b. table (crc_mul a b))
moves-Agree zero i a h lt = tt
moves-Agree (suc k) i a h lt =
    let b = 2 ^ i in
    let (now, later) =
      both (same_powers 32 0 (λ x. crc_mul x (table b)) (λ x. table (crc_mul x b)))
        (moves k (i + 1)) h in
    (
      linear-powers 32 (λ x. crc_mul x (table b)) (λ x. table (crc_mul x b))
          (crc_mul-left (table b))
          (compose-IsLinear table (λ x. crc_mul x b) table-IsLinear (crc_mul-left b)) now a lt,
      moves-Agree k (i + 1) a later lt,
    )

-- Moving a factor over a zero byte moves the product.
crc_mul-table : (a b : ℕ) → a < 2 ^ 32 → b < 2 ^ 32 → crc_mul a (table b) ≡ table (crc_mul a b)
crc_mul-table a b p q =
    linear-Agree 32 (λ c. crc_mul a (table c)) (λ c. table (crc_mul a c))
      (compose-IsLinear (crc_mul a) table (crc_mul-right a) table-IsLinear)
      (compose-IsLinear table (crc_mul a) table-IsLinear (crc_mul-right a))
      (moves-Agree 32 0 a moves_check p) b q

-- The register behind a zero byte.
raw_update-zero : (crc : ℕ) (p : Bytes) → raw_update crc (0 ∷ p) ≡ raw_update (table crc) p
raw_update-zero crc p =
    raw_update-cons crc 0 p ∙ ap (λ c. raw_update (table c) p) (bit_xor-zero crc)

crc_mul-zeros :
    (n a b : ℕ)
    → a < 2 ^ 32
    → b < 2 ^ 32
    → crc_mul a (raw_update b (replicate n 0)) ≡ raw_update (crc_mul a b) (replicate n 0)
unfolding raw_update
crc_mul-zeros zero a b p q = refl
crc_mul-zeros (suc n) a b p q =
    ap (crc_mul a) (raw_update-zero b (replicate n 0))
    ∙ crc_mul-zeros n a (table b) p (table-lt b q)
    ∙ ap (λ c. raw_update c (replicate n 0)) (crc_mul-table a b p q)
    ∙ sym (raw_update-zero (crc_mul a b) (replicate n 0))

-- Multiplying by the register that `n` zero bytes leave of 1 feeds `n` zero bytes: `shiftZeros` of any
-- register of 32 bits is one product with a constant.
pub crc_mul-shift_zeros :
    (a n : ℕ) → a < 2 ^ 32 → crc_mul a (shift_zeros 0x80000000 n) ≡ shift_zeros a n
unfolding shift_zeros
crc_mul-shift_zeros a n p =
    crc_mul-zeros n a 0x80000000 p (omega arith)
    ∙ ap (λ c. raw_update c (replicate n 0)) (crc_mul-one a p)
