-- ===== src/Go/Strconv.antt =====
-- The packages `strconv` and `encoding/hex`, and the verbs %d and %08x of `fmt`.
use rapidyenc.Base.{
  ℕ, zero, suc, ◌+◌, ◌-◌, ◌*◌, ◌/◌, ◌%◌, ◌^◌, Bool, true, false, ◌&&◌, Option, none, some, [], ◌∷◌,
  Bytes, ltb, leb, ◌==◌, if◌then◌else◌,
}
use rapidyenc.Base.Int.{ℤ, pos, negsuc}

-- The decimal digits of `n` in front of `out`; a digit is taken off in each round.
digits : ℕ → ℕ → Bytes → Bytes
digits zero n out = out
digits (suc fuel) n out =
    let rest = digits fuel (n / 10) ((b'0' + n % 10) ∷ out) in
    if n / 10 == 0 then (b'0' + n % 10) ∷ out else rest

-- `%d` of a number below 10 ^ 20, which has twenty digits at the most.
unfoldable pub format_nat : ℕ → Bytes
unfolding digits
format_nat n = digits 20 n []

unfoldable pub format_int : ℤ → Bytes
unfolding format_nat
format_int (pos n) = format_nat n
format_int (negsuc n) = b'-' ∷ format_nat (n + 1)

abbrev hex_digit : ℕ → ℕ
hex_digit d = if ltb d 10 then b'0' + d else b'a' + (d - 10)

-- The last `k` hexadecimal digits of `n` in front of `out`.
hex_digits : ℕ → ℕ → Bytes → Bytes
hex_digits zero n out = out
hex_digits (suc k) n out = hex_digits k (n / 16) (hex_digit (n % 16) ∷ out)

-- `%08x` of a uint32
unfoldable pub format_hex8 : ℕ → Bytes
unfolding hex_digits
format_hex8 n = hex_digits 8 n []

abbrev pub is_digit : ℕ → Bool
is_digit c = leb b'0' c && leb c b'9'

-- The value of digits behind `acc`, or none at another byte. What passes 64 bits is out of range at
-- once, whatever comes behind it. `strconv` reads no `_` in base 10.
unfoldable pub parse_digits : ℕ → Bytes → Option ℕ
parse_digits acc [] = some acc
parse_digits acc (c ∷ cs) =
    let next = acc * 10 + (c - b'0') in
    let rest = parse_digits next cs in
    if is_digit c then (if leb (2 ^ 64) next then some next else rest) else none

-- The value and whether there was an error. A value out of range is clamped, with an error.
clamp : Bool → Option ℕ → ℤ × Bool
clamp neg none = (pos 0, false)
clamp false (some n) = if ltb n (2 ^ 63) then (pos n, true) else (pos (2 ^ 63 - 1), false)
clamp true (some zero) = (pos 0, true)
clamp true (some (suc n)) =
    if ltb n (2 ^ 63) then (negsuc n, true) else (negsuc (2 ^ 63 - 1), false)

parse_signed : Bool → Bytes → ℤ × Bool
unfolding parse_digits clamp
parse_signed neg [] = (pos 0, false)
parse_signed neg (c ∷ cs) = clamp neg (parse_digits 0 (c ∷ cs))

-- `strconv.ParseInt(s, 10, 64)`, and `strconv.Atoi` where `int` has 64 bits: the value, and `true`
-- where there is no error.
unfoldable pub parse_int : Bytes → ℤ × Bool
unfolding parse_signed
parse_int [] = (pos 0, false)
parse_int (c ∷ cs) =
    if c == b'-'
    then parse_signed true cs
    else if c == b'+'
    then parse_signed false cs
    else parse_signed false (c ∷ cs)

abbrev pub hex_value : ℕ → Option ℕ
hex_value c =
    if leb b'0' c && leb c b'9'
    then some (c - b'0')
    else if leb b'a' c && leb c b'f'
    then some (c - b'a' + 10)
    else if leb b'A' c && leb c b'F'
    then some (c - b'A' + 10)
    else none
