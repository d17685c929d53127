-- ===== src/Crc/Linear.antt =====
-- Feeding bytes through the CRC register respects exclusive or, and stays within 32 bits.
use Prim.Native.Nat.{bit_xor}
use mathlib.Core.Path.{ap₂}
use rapidyenc.Base.{
  ℕ, zero, suc, ◌+◌, ◌*◌, ◌/◌, ◌%◌, ◌^◌, ◌<◌, ◌≡◌, refl, sym, ap, ◌∙◌, arith, [], ◌∷◌, ◌++◌, Bytes,
  All, IsByte, length, replicate, ◌==◌, if◌then◌else◌, true, false, Bool-cases, inl, inr,
}
use rapidyenc.Base.Bits.{
  IsLinear, sum-IsLinear, zero-bit_xor, bit_xor-zero, bit_xor_comm, bit_xor_assoc, bit_xor_self,
  half-IsLinear, bit_xor-digit, mul_pow-suc, split_pow, bit_xor-lt,
}
use rapidyenc.Go.Crc32.{
  polynomial, shift_bits, table, raw_update, invert, update, raw_update-append,
}

-- A number taken if a digit is 1; sums of digits take sums.
unfoldable pub picked : ℕ → ℕ → ℕ
picked x d = if d % 2 == 1 then x else 0

pub picked_add : (x a b : ℕ) → picked x (a + b) ≡ bit_xor (picked x a) (picked x b)
unfolding picked
picked_add x a b = elim (Bool-cases (a % 2 == 1)) [
  | inl p ↦ elim (Bool-cases (b % 2 == 1)) [
    | inl q ↦
        let e : ((a + b) % 2 == 1) ≡ false = ground arith in rw (p, q, e) (sym (bit_xor_self x))
    | inr q ↦
        let e : ((a + b) % 2 == 1) ≡ true = ground arith in rw (p, q, e) (sym (bit_xor-zero x))
  ]
  | inr p ↦ elim (Bool-cases (b % 2 == 1)) [
    | inl q ↦
        let e : ((a + b) % 2 == 1) ≡ true = ground arith in rw (p, q, e) (sym (zero-bit_xor x))
    | inr q ↦ let e : ((a + b) % 2 == 1) ≡ false = ground arith in rw (p, q, e) refl
  ]
]

pub picked-IsLinear : (x : ℕ) → IsLinear (picked x)
unfolding picked
picked-IsLinear x a b = ap (λ d. if d == 1 then x else 0) (bit_xor-digit a b) ∙ picked_add x a b

-- One bit through the register.
abbrev shift_one : ℕ → ℕ
shift_one crc = bit_xor (crc / 2) (picked polynomial crc)

shift_bits-suc : (k crc : ℕ) → shift_bits (suc k) crc ≡ shift_bits k (shift_one crc)
unfolding shift_bits picked
shift_bits-suc k crc = elim (Bool-cases (crc % 2 == 1)) [
  | inl odd ↦ rw odd refl
  | inr even ↦ rw (even, bit_xor-zero (crc / 2)) refl
]

shift_bits-IsLinear : (k : ℕ) → IsLinear (shift_bits k)
unfolding shift_bits
shift_bits-IsLinear zero a b = refl
shift_bits-IsLinear (suc k) a b =
    let one : shift_one (bit_xor a b) ≡ bit_xor (shift_one a) (shift_one b) =
      sum-IsLinear (λ x. x / 2) (picked polynomial) half-IsLinear (picked-IsLinear polynomial) a
        b in
    rw (shift_bits-suc k (bit_xor a b), shift_bits-suc k a, shift_bits-suc k b, one)
      (shift_bits-IsLinear k (shift_one a) (shift_one b))

pub table-IsLinear : IsLinear table
unfolding table
table-IsLinear = shift_bits-IsLinear 8

-- Digits above the eighth move down.
shift_bits-high : (k x : ℕ) → shift_bits k (x * 2 ^ k) ≡ x
unfolding shift_bits
shift_bits-high zero x = omega arith
shift_bits-high (suc k) x =
    let e : x * 2 ^ suc k ≡ x * 2 ^ k * 2 = mul_pow-suc k x in
    let even : (x * 2 ^ k * 2 % 2 == 1) ≡ false = ground arith in
    let half : x * 2 ^ k * 2 / 2 ≡ x * 2 ^ k = omega arith in
    rw (e, even, half) (shift_bits-high k x)

table_split : (x : ℕ) → table x ≡ bit_xor (table (x % 256)) (x / 2 ^ 8)
unfolding table
table_split x =
    ap table (split_pow 8 x)
    ∙ table-IsLinear (x % 2 ^ 8) (x / 2 ^ 8 * 2 ^ 8)
    ∙ ap (bit_xor (table (x % 2 ^ 8))) (shift_bits-high 8 (x / 2 ^ 8))

-- A byte goes into the whole register.
pub raw_update-cons :
    (crc v : ℕ) (p : Bytes) → raw_update crc (v ∷ p) ≡ raw_update (table (bit_xor crc v)) p
unfolding raw_update
raw_update-cons crc v p =
    ap (λ x. raw_update x p)
      (rw (table-IsLinear (crc % 256) v) (
        bit_xor_assoc (table (crc % 256)) (table v) (crc / 2 ^ 8)
        ∙ ap (bit_xor (table (crc % 256))) (bit_xor_comm (table v) (crc / 2 ^ 8))
        ∙ sym (bit_xor_assoc (table (crc % 256)) (crc / 2 ^ 8) (table v))
        ∙ ap (λ x. bit_xor x (table v)) (sym (table_split crc))
        ∙ sym (table-IsLinear crc v)))

-- Feeding a slice: what was in the register moves as over zeros.
pub raw_update-bit_xor :
    (p : Bytes) (x y : ℕ)
    → raw_update (bit_xor x y) p ≡ bit_xor (raw_update x (replicate (length p) 0)) (raw_update y p)
unfolding raw_update
raw_update-bit_xor [] x y = refl
raw_update-bit_xor (v ∷ p) x y =
    let here : table (bit_xor (bit_xor x y) v)
        ≡ bit_xor (table (bit_xor x 0)) (table (bit_xor y v)) =
      rw (bit_xor-zero x) (ap table (bit_xor_assoc x y v) ∙ table-IsLinear x (bit_xor y v)) in
    raw_update-cons (bit_xor x y) v p
    ∙ ap (λ c. raw_update c p) here
    ∙ raw_update-bit_xor p (table (bit_xor x 0)) (table (bit_xor y v))
    ∙ ap₂ bit_xor (sym (raw_update-cons x 0 (replicate (length p) 0))) (sym (raw_update-cons y v p))

picked-lt : (c : ℕ) → picked polynomial c < 2 ^ 32
unfolding picked
picked-lt c = ground arith

shift_bits-lt : (k crc : ℕ) → crc < 2 ^ 32 → shift_bits k crc < 2 ^ 32
unfolding shift_bits
shift_bits-lt zero crc h = h
shift_bits-lt (suc k) crc h = rw (shift_bits-suc k crc) (
    shift_bits-lt k (shift_one crc)
      (bit_xor-lt 32 (crc / 2) (picked polynomial crc) (omega (arith, h)) (picked-lt crc)))

pub table-lt : (crc : ℕ) → crc < 2 ^ 32 → table crc < 2 ^ 32
unfolding table
table-lt = shift_bits-lt 8

-- The register keeps 32 bits.
pub raw_update-lt : (p : Bytes) (crc : ℕ) → crc < 2 ^ 32 → All IsByte p → raw_update crc p < 2 ^ 32
unfolding raw_update
raw_update-lt [] crc h b = h
raw_update-lt (v ∷ p) crc h (b, bs) = rw (raw_update-cons crc v p) (
    raw_update-lt p (table (bit_xor crc v))
      (table-lt (bit_xor crc v) (bit_xor-lt 32 crc v h (omega (arith, b)))) bs)

pub invert-lt : (crc : ℕ) → invert crc < 2 ^ 32
invert-lt crc = omega arith

pub invert-invert : (crc : ℕ) → crc < 2 ^ 32 → invert (invert crc) ≡ crc
invert-invert crc h = omega (arith, h)

-- Checksums may be taken in pieces: `crc32.Update` over `a` and then over `b` is that over both.
pub update-append :
    (crc : ℕ) (a b : Bytes) → All IsByte a → update (update crc a) b ≡ update crc (a ++ b)
unfolding update
update-append crc a b h =
    ap (λ x. invert (raw_update x b))
      (invert-invert (raw_update (invert crc) a) (raw_update-lt a (invert crc) (invert-lt crc) h))
    ∙ ap invert (sym (raw_update-append a b (invert crc)))

pub update-nil : (crc : ℕ) → crc < 2 ^ 32 → update crc [] ≡ crc
unfolding update raw_update
update-nil crc h = invert-invert crc h

pub update-lt : (crc : ℕ) (p : Bytes) → update crc p < 2 ^ 32
unfolding update
update-lt crc p = invert-lt (raw_update (invert crc) p)
