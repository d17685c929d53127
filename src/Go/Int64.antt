-- ===== src/Go/Int64.antt =====
-- Go's `int64`: an integer that wraps into its range.
use rapidyenc.Base.{ℕ, ◌≡◌, arith, ◌+◌, ◌-◌, ◌%◌, ◌^◌, ltb, ◌==◌, Bool, false, if◌then◌else◌}
use rapidyenc.Base.Int.{ℤ, pos, negsuc, ◌+ℤ◌, ◌-ℤ◌}

-- The integer of a 64-bit pattern.
abbrev pub signed64 : ℕ → ℤ
signed64 w = if ltb w (2 ^ 63) then pos w else negsuc (2 ^ 64 - w - 1)

unfoldable pub wrap64 : ℤ → ℤ
wrap64 (pos n) = signed64 (n % 2 ^ 64)
wrap64 (negsuc n) = signed64 (2 ^ 64 - 1 - n % 2 ^ 64)

unfoldable pub add_int64 : ℤ → ℤ → ℤ
unfolding wrap64 ◌+ℤ◌
add_int64 a b = wrap64 (a +ℤ b)

unfoldable pub sub_int64 : ℤ → ℤ → ℤ
unfolding wrap64 ◌-ℤ◌
sub_int64 a b = wrap64 (a -ℤ b)

-- `a == b` on integers.
abbrev pub eq_ℤ : ℤ → ℤ → Bool
eq_ℤ (pos a) (pos b) = a == b
eq_ℤ (negsuc a) (negsuc b) = a == b
eq_ℤ _ _ = false

abbrev pub is_positive : ℤ → Bool
is_positive (pos n) = ltb 0 n
is_positive (negsuc n) = false

-- Counting on wraps once, however often it wrapped before.
pub add_int64-wrap64 : (m n : ℕ) → add_int64 (wrap64 (pos m)) (pos n) ≡ wrap64 (pos (m + n))
unfolding add_int64 wrap64 ◌+ℤ◌
add_int64-wrap64 m n = ground arith
