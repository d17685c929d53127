-- ===== src/Base/Bits.antt =====
-- Exclusive or on the native numbers: a commutative group in which every number is its own inverse,
-- and the operations that respect it.
use Prim.Native.Nat.{max, digits, differ, bit_or, bit_or-bitwise, bit_xor, bit_xor-bitwise}
use mathlib.Core.Path.{ap₂}
use native.Mathlib.Nat.{div-div-eq-div-mul, pow-succ', div-add-mod', div-one, mod-lt, mod-eq_of_lt}
use rapidyenc.Base.{
  ℕ, zero, suc, ◌+◌, ◌*◌, ◌/◌, ◌%◌, ◌^◌, ◌≤◌, ◌<◌, ◌≡◌, refl, sym, ap, ◌∙◌, arith, Bool, true, ◌&&◌,
  ◌==◌, ==_iff,
}

-- The native operation looks at so many digits; those that it has in excess do not matter.
abbrev xor_upto : ℕ → ℕ → ℕ → ℕ
xor_upto = digits (λ y. y) differ

excess_digits : (k l x y : ℕ) → x ≤ k → x ≤ l → xor_upto k x y ≡ xor_upto l x y
excess_digits (suc k) (suc l) (suc x) y h g =
    let lower = excess_digits k l (suc x / 2) (y / 2) (omega (arith, h)) (omega (arith, g)) in
    ap (λ z. z * 2 + differ (suc x % 2) (y % 2)) lower
excess_digits (suc k) (suc l) zero y h g = refl
excess_digits (suc k) zero zero y h g = refl
excess_digits zero (suc l) zero y h g = refl
excess_digits zero zero zero y h g = refl
excess_digits (suc k) zero (suc x) y h g = absurd (omega (arith, g))
excess_digits zero l (suc x) y h g = absurd (omega (arith, h))

pub zero-bit_xor : (b : ℕ) → bit_xor 0 b ≡ b
zero-bit_xor b = bit_xor-bitwise 0 b

-- The lowest digit apart.
bit_xor_step : (a b : ℕ) → bit_xor a b ≡ bit_xor (a / 2) (b / 2) * 2 + differ (a % 2) (b % 2)
bit_xor_step zero b = simp zero-bit_xor (omega arith)
bit_xor_step (suc a) b = omega (
  arith,
  bit_xor-bitwise (suc a) b,
  bit_xor-bitwise (suc a / 2) (b / 2),
  excess_digits a (suc a / 2) (suc a / 2) (b / 2) (omega arith) (omega arith),
)

differ-digits : (x y : ℕ) → x < 2 → y < 2 → differ x y ≡ (x + y) % 2
differ-digits zero y p q = omega (arith, q)
differ-digits (suc zero) zero p q = refl
differ-digits (suc zero) (suc zero) p q = refl
differ-digits (suc zero) (suc (suc y)) p q = absurd (omega (arith, q))
differ-digits (suc (suc x)) y p q = absurd (omega (arith, p))

-- The two parts of a result, which `omega` puts together.
pub bit_xor-half : (a b : ℕ) → bit_xor a b / 2 ≡ bit_xor (a / 2) (b / 2)
bit_xor-half a b =
    omega (arith, bit_xor_step a b, differ-digits (a % 2) (b % 2) (omega arith) (omega arith))

pub bit_xor-digit : (a b : ℕ) → bit_xor a b % 2 ≡ (a + b) % 2
bit_xor-digit a b =
    omega (arith, bit_xor_step a b, differ-digits (a % 2) (b % 2) (omega arith) (omega arith))

comm_fuel : (n a b : ℕ) → a ≤ n → b ≤ n → bit_xor a b ≡ bit_xor b a
comm_fuel zero zero zero p q = refl
comm_fuel zero (suc a) b p q = absurd (omega (arith, p))
comm_fuel zero a (suc b) p q = absurd (omega (arith, q))
comm_fuel (suc n) a b p q = omega (
  arith,
  comm_fuel n (a / 2) (b / 2) (omega (arith, p)) (omega (arith, q)),
  bit_xor-half a b,
  bit_xor-half b a,
  bit_xor-digit a b,
  bit_xor-digit b a,
)

pub bit_xor_comm : (a b : ℕ) → bit_xor a b ≡ bit_xor b a
bit_xor_comm a b = comm_fuel (a + b) a b (omega arith) (omega arith)

pub bit_xor-zero : (a : ℕ) → bit_xor a 0 ≡ a
bit_xor-zero a = bit_xor_comm a 0 ∙ zero-bit_xor a

assoc_fuel :
    (n a b c : ℕ) → a ≤ n → b ≤ n → c ≤ n → bit_xor (bit_xor a b) c ≡ bit_xor a (bit_xor b c)
assoc_fuel zero a b c p q r =
    let a0 : a ≡ 0 = omega (arith, p) in
    let b0 : b ≡ 0 = omega (arith, q) in let c0 : c ≡ 0 = omega (arith, r) in rw (a0, b0, c0) refl
assoc_fuel (suc n) a b c p q r =
    let h =
      assoc_fuel n (a / 2) (b / 2) (c / 2) (omega (arith, p)) (omega (arith, q))
        (omega (arith, r)) in
    let left : bit_xor (bit_xor a b) c / 2 ≡ bit_xor (bit_xor (a / 2) (b / 2)) (c / 2) =
      bit_xor-half (bit_xor a b) c ∙ ap (λ x. bit_xor x (c / 2)) (bit_xor-half a b) in
    let right : bit_xor a (bit_xor b c) / 2 ≡ bit_xor (a / 2) (bit_xor (b / 2) (c / 2)) =
      bit_xor-half a (bit_xor b c) ∙ ap (bit_xor (a / 2)) (bit_xor-half b c) in
    omega (
      arith,
      h,
      left,
      right,
      bit_xor-digit (bit_xor a b) c,
      bit_xor-digit a b,
      bit_xor-digit a (bit_xor b c),
      bit_xor-digit b c,
    )

pub bit_xor_assoc : (a b c : ℕ) → bit_xor (bit_xor a b) c ≡ bit_xor a (bit_xor b c)
bit_xor_assoc a b c = assoc_fuel (a + b + c) a b c (omega arith) (omega arith) (omega arith)

self_fuel : (n a : ℕ) → a ≤ n → bit_xor a a ≡ 0
self_fuel zero a p = let a0 : a ≡ 0 = omega (arith, p) in rw a0 refl
self_fuel (suc n) a p =
    omega (arith, self_fuel n (a / 2) (omega (arith, p)), bit_xor-half a a, bit_xor-digit a a)

pub bit_xor_self : (a : ℕ) → bit_xor a a ≡ 0
bit_xor_self a = self_fuel a a (omega arith)

-- Sums of two sums, regrouped.
pub bit_xor_swap :
    (a b c d : ℕ) → bit_xor (bit_xor a b) (bit_xor c d) ≡ bit_xor (bit_xor a c) (bit_xor b d)
bit_xor_swap a b c d =
    bit_xor_assoc a b (bit_xor c d)
    ∙ ap (bit_xor a) (sym (bit_xor_assoc b c d))
    ∙ ap (λ x. bit_xor a (bit_xor x d)) (bit_xor_comm b c)
    ∙ ap (bit_xor a) (bit_xor_assoc c b d)
    ∙ sym (bit_xor_assoc a c (bit_xor b d))

-- A function that respects exclusive or.
abbrev pub IsLinear : (ℕ → ℕ) → Type 0
IsLinear f = (a b : ℕ) → f (bit_xor a b) ≡ bit_xor (f a) (f b)

pub half-IsLinear : IsLinear (λ a. a / 2)
half-IsLinear = bit_xor-half

pub double-IsLinear : IsLinear (λ a. a * 2)
double-IsLinear a b =
    let h : bit_xor (a * 2) (b * 2) / 2 ≡ bit_xor a b =
      let x : a * 2 / 2 ≡ a = omega arith in
      let y : b * 2 / 2 ≡ b = omega arith in bit_xor-half (a * 2) (b * 2) ∙ rw (x, y) refl in
    omega (arith, h, bit_xor-digit (a * 2) (b * 2))

pub linear-zero : (f : ℕ → ℕ) → IsLinear f → f 0 ≡ 0
linear-zero f l = let h : f 0 ≡ bit_xor (f 0) (f 0) = l 0 0 in h ∙ bit_xor_self (f 0)

pub compose-IsLinear : (f g : ℕ → ℕ) → IsLinear f → IsLinear g → IsLinear (λ a. f (g a))
compose-IsLinear f g lf lg a b = ap f (lg a b) ∙ lf (g a) (g b)

pub sum-IsLinear : (f g : ℕ → ℕ) → IsLinear f → IsLinear g → IsLinear (λ a. bit_xor (f a) (g a))
sum-IsLinear f g lf lg a b = rw (lf a b, lg a b) (bit_xor_swap (f a) (f b) (g a) (g b))

pub div_pow-suc : (k x : ℕ) → x / 2 ^ suc k ≡ x / 2 / 2 ^ k
div_pow-suc k x = rw (pow-succ' 2 k) (sym (div-div-eq-div-mul x 2 (2 ^ k)))

pub mul_pow-suc : (k x : ℕ) → x * 2 ^ suc k ≡ x * 2 ^ k * 2
mul_pow-suc k x = rw (pow-succ' 2 k) (grind arith)

remainders : (q m r r' x : ℕ) → q * m + r ≡ x / 2 → q * (2 * m) + r' ≡ x → r' ≡ r * 2 + x % 2
remainders q m r r' x h k = grind arith

pub mod_pow-suc : (k x : ℕ) → x % 2 ^ suc k ≡ x / 2 % 2 ^ k * 2 + x % 2
mod_pow-suc k x =
    remainders (x / 2 / 2 ^ k) (2 ^ k) (x / 2 % 2 ^ k) (x % 2 ^ suc k) x
      (div-add-mod' (x / 2) (2 ^ k))
      (ap (λ q. q * (2 * 2 ^ k) + x % 2 ^ suc k) (sym (div_pow-suc k x))
        ∙ ap (λ m. x / 2 ^ suc k * m + x % 2 ^ suc k) (sym (pow-succ' 2 k))
        ∙ div-add-mod' x (2 ^ suc k))

pub div_pow-IsLinear : (k : ℕ) → IsLinear (λ a. a / 2 ^ k)
div_pow-IsLinear zero a b = rw (div-one (bit_xor a b), div-one a, div-one b) refl
div_pow-IsLinear (suc k) a b =
    rw (div_pow-suc k (bit_xor a b), div_pow-suc k a, div_pow-suc k b, bit_xor-half a b)
      (div_pow-IsLinear k (a / 2) (b / 2))

pub mul_pow-IsLinear : (k : ℕ) → IsLinear (λ a. a * 2 ^ k)
mul_pow-IsLinear zero a b =
    let one : (x : ℕ) → x * 2 ^ 0 ≡ x = λ x. omega arith in
    rw (one (bit_xor a b), one a, one b) refl
mul_pow-IsLinear (suc k) a b =
    rw (mul_pow-suc k (bit_xor a b), mul_pow-suc k a, mul_pow-suc k b, mul_pow-IsLinear k a b)
      (double-IsLinear (a * 2 ^ k) (b * 2 ^ k))

pub mod_pow-IsLinear : (k : ℕ) → IsLinear (λ a. a % 2 ^ k)
mod_pow-IsLinear zero a b =
    let none_left : (x : ℕ) → x % 2 ^ 0 ≡ 0 = λ x. omega arith in
    rw (none_left (bit_xor a b), none_left a, none_left b) refl
mod_pow-IsLinear (suc k) a b =
    let h = mod_pow-IsLinear k (a / 2) (b / 2) in
    let low : (x : ℕ) → x % 2 ^ suc k / 2 ≡ x / 2 % 2 ^ k = λ x. omega (arith, mod_pow-suc k x) in
    let digit : (x : ℕ) → x % 2 ^ suc k % 2 ≡ x % 2 = λ x. omega (arith, mod_pow-suc k x) in
    let right = bit_xor-half (a % 2 ^ suc k) (b % 2 ^ suc k) ∙ ap₂ bit_xor (low a) (low b) in
    let left = low (bit_xor a b) ∙ ap (λ x. x % 2 ^ k) (bit_xor-half a b) in
    omega (
      arith,
      h,
      left,
      right,
      digit (bit_xor a b),
      digit a,
      digit b,
      bit_xor-digit a b,
      bit_xor-digit (a % 2 ^ suc k) (b % 2 ^ suc k),
    )

-- Two functions agree on `k` powers of two, from the `i`-th one.
abbrev pub Agree : ℕ → ℕ → (ℕ → ℕ) → (ℕ → ℕ) → Type 0
Agree zero i f g = Unit {0}
Agree (suc k) i f g = (f (2 ^ i) ≡ g (2 ^ i)) × Agree k (i + 1) f g

-- The same as a test.
abbrev pub same_powers : ℕ → ℕ → (ℕ → ℕ) → (ℕ → ℕ) → Bool
same_powers zero i f g = true
same_powers (suc k) i f g = f (2 ^ i) == g (2 ^ i) && same_powers k (i + 1) f g

digits_apart : (a : ℕ) → a ≡ bit_xor (a / 2 * 2) (a % 2)
digits_apart a =
    let x : a / 2 * 2 / 2 ≡ a / 2 = omega arith in
    let y : a % 2 / 2 ≡ 0 = omega arith in
    let h : bit_xor (a / 2 * 2) (a % 2) / 2 ≡ a / 2 =
      bit_xor-half (a / 2 * 2) (a % 2) ∙ rw (x, y) (bit_xor-zero (a / 2)) in
    omega (arith, h, bit_xor-digit (a / 2 * 2) (a % 2))

pub both : (p q : Bool) → (p && q) ≡ true → (p ≡ true) × (q ≡ true)
both p q h = ground arith

same_powers-Agree : (k i : ℕ) (f g : ℕ → ℕ) → same_powers k i f g ≡ true → Agree k i f g
same_powers-Agree zero i f g h = tt
same_powers-Agree (suc k) i f g h =
    let (first, later) = both _ _ h in ((==_iff _ _).0 first, same_powers-Agree k (i + 1) f g later)

on_digit :
    (i : ℕ) (f g : ℕ → ℕ)
    → IsLinear f
    → IsLinear g
    → f (2 ^ i) ≡ g (2 ^ i)
    → (d : ℕ) → d < 2
    → f (d * 2 ^ i) ≡ g (d * 2 ^ i)
on_digit i f g lf lg h zero lt =
    let e : 0 * 2 ^ i ≡ 0 = omega arith in rw e (linear-zero f lf ∙ sym (linear-zero g lg))
on_digit i f g lf lg h (suc zero) lt = let e : 1 * 2 ^ i ≡ 2 ^ i = omega arith in rw e h
on_digit i f g lf lg h (suc (suc d)) lt = absurd (omega (arith, lt))

digits_apart_at : (i a : ℕ) → a * 2 ^ i ≡ bit_xor (a / 2 * 2 ^ suc i) (a % 2 * 2 ^ i)
digits_apart_at i a =
    ap (λ x. x * 2 ^ i) (digits_apart a)
    ∙ mul_pow-IsLinear i (a / 2 * 2) (a % 2)
    ∙ ap (λ x. bit_xor x (a % 2 * 2 ^ i)) (rw (pow-succ' 2 i) (grind arith))

-- Linear functions that agree on the powers of two agree on what these span.
linear-Agree_at :
    (k i : ℕ) (f g : ℕ → ℕ)
    → IsLinear f
    → IsLinear g
    → Agree k i f g
    → (a : ℕ) → a < 2 ^ k
    → f (a * 2 ^ i) ≡ g (a * 2 ^ i)
linear-Agree_at zero i f g lf lg h a lt =
    let e : a * 2 ^ i ≡ 0 = let z : a ≡ 0 = omega (arith, lt) in rw z (omega arith) in
    rw e (linear-zero f lf ∙ sym (linear-zero g lg))
linear-Agree_at (suc k) i f g lf lg (first, later) a lt =
    let up : 2 ^ suc i ≡ 2 ^ (i + 1) = ap (λ n. 2 ^ n) (omega arith) in
    let ih : f (a / 2 * 2 ^ suc i) ≡ g (a / 2 * 2 ^ suc i) =
      rw up
        (linear-Agree_at k (i + 1) f g lf lg later (a / 2) (omega (arith, lt, pow-succ' 2 k))) in
    let digit = on_digit i f g lf lg first (a % 2) (omega arith) in
    ap f (digits_apart_at i a)
    ∙ lf (a / 2 * 2 ^ suc i) (a % 2 * 2 ^ i)
    ∙ ap₂ bit_xor ih digit
    ∙ sym (lg (a / 2 * 2 ^ suc i) (a % 2 * 2 ^ i))
    ∙ sym (ap g (digits_apart_at i a))

pub linear-Agree :
    (k : ℕ) (f g : ℕ → ℕ)
    → IsLinear f
    → IsLinear g
    → Agree k 0 f g
    → (a : ℕ) → a < 2 ^ k
    → f a ≡ g a
linear-Agree k f g lf lg h a lt =
    let e : a * 2 ^ 0 ≡ a = omega arith in rw e at (linear-Agree_at k 0 f g lf lg h a lt)

pub linear-powers :
    (k : ℕ) (f g : ℕ → ℕ)
    → IsLinear f
    → IsLinear g
    → same_powers k 0 f g ≡ true
    → (a : ℕ) → a < 2 ^ k
    → f a ≡ g a
linear-powers k f g lf lg h = linear-Agree k f g lf lg (same_powers-Agree k 0 f g h)

-- A number is its lowest digits and the others.
pub split_pow : (k x : ℕ) → x ≡ bit_xor (x % 2 ^ k) (x / 2 ^ k * 2 ^ k)
split_pow zero x =
    let e : x % 2 ^ 0 ≡ 0 = omega arith in
    let d : x / 2 ^ 0 * 2 ^ 0 ≡ x = omega (arith, div-one x) in rw (e, d) (sym (zero-bit_xor x))
split_pow (suc k) x =
    let low : x % 2 ^ suc k / 2 ≡ x / 2 % 2 ^ k = omega (arith, mod_pow-suc k x) in
    let up : x / 2 ^ suc k * 2 ^ suc k ≡ x / 2 / 2 ^ k * 2 ^ k * 2 =
      mul_pow-suc k (x / 2 ^ suc k) ∙ ap (λ y. y * 2 ^ k * 2) (div_pow-suc k x) in
    let half : bit_xor (x % 2 ^ suc k) (x / 2 ^ suc k * 2 ^ suc k) / 2 ≡ x / 2 =
      bit_xor-half (x % 2 ^ suc k) (x / 2 ^ suc k * 2 ^ suc k)
      ∙ ap₂ bit_xor low (ap (λ y. y / 2) up ∙ omega arith)
      ∙ sym (split_pow k (x / 2)) in
    omega
      (arith, half, up, mod_pow-suc k x, bit_xor-digit (x % 2 ^ suc k) (x / 2 ^ suc k * 2 ^ suc k))

pub bit_xor-lt : (k a b : ℕ) → a < 2 ^ k → b < 2 ^ k → bit_xor a b < 2 ^ k
bit_xor-lt k a b p q =
    let same : bit_xor a b % 2 ^ k ≡ bit_xor a b =
      mod_pow-IsLinear k a b ∙ ap₂ bit_xor (mod-eq_of_lt p) (mod-eq_of_lt q) in
    rw same at (mod-lt (bit_xor a b) {m = 2 ^ k} (omega (arith, p)))

or_upto-le : (k a b : ℕ) → digits (λ y. y) max k a b ≤ a + b
or_upto-le zero a b = omega arith
or_upto-le (suc k) zero b = omega arith
or_upto-le (suc k) (suc a) b = omega (arith, or_upto-le k (suc a / 2) (b / 2))

-- A disjunction is no more than the sum.
pub bit_or-le : (a b : ℕ) → bit_or a b ≤ a + b
bit_or-le a b = rw (bit_or-bitwise a b) (or_upto-le a a b)
