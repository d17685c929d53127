-- ===== src/Simd/Encode.antt =====
-- encoder_simd.go: `encodeSIMD`. The pointer `colOffset` is `none` where it is nil; what it points to
-- is part of the result. A kernel gets `*colOffset` and returns it with the number of the bytes that
-- it read and the bytes that it wrote, which stand for their number.
pub mod Refine
mod Tests
use rapidyenc.Base.{
  ℕ, ◌+◌, ◌-◌, ◌||◌, Bool, Option, none, some, [], ◌∷◌, ◌++◌, Bytes, length, take, drop, add_byte,
  ltb, leb, ◌==◌, if◌then◌else◌, Outcome, ret, ◌>>=◌,
}
use rapidyenc.Base.Int.{ℤ, pos, negsuc}
use rapidyenc.Encoder.{get_last?, encode_generic}

pub record Encoded : Type 0 where
  pub consumed : ℕ
  pub column : ℕ
  pub written : Bytes

abbrev pub Kernel : Type 0
Kernel = ℕ → ℕ → Bytes → Outcome Encoded

-- `if colOffset == nil` and `if *colOffset < 0`.
unfoldable pub start_column : Option ℤ → ℕ
start_column none = 0
start_column (some (pos n)) = n
start_column (some (negsuc n)) = 0

-- `*colOffset = col`, which no caller sees where the pointer was nil.
unfoldable pub store : Option ℤ → ℕ × Bytes → Outcome (Option ℤ × Bytes)
store none (col, out) = ret (none, out)
store (some x) (col, out) = ret (some (pos col), out)

-- `if lc == '\t' || lc == ' '`, where `lc` is the last byte of `dest[:written]`.
pub escape_tail : ℕ → Bytes → Option ℕ → ℕ × Bytes
escape_tail col out none = (col, out)
escape_tail col out (some lc) =
    if lc == b'\t' || lc == b' '
    then (col + 1, take (length out - 1) out ++ (b'=' ∷ add_byte lc 64 ∷ []))
    else (col, out)

module _ (kernel : Kernel) (line : ℕ) where
  -- Behind the kernel: all is read, or the scalar loop takes the rest.
  pub behind_kernel : Bytes → Bool → Encoded → Outcome (ℕ × Bytes)
  unfolding escape_tail
  behind_kernel src do_end k =
      if leb (length src) k.consumed
      then ret (
          if do_end
          then escape_tail k.column k.written (get_last? k.written)
          else (k.column, k.written))
      else (do
        r ← encode_generic line k.column (drop k.consumed src) do_end
        ret (r.0, k.written ++ r.1))

  pub encode_from : ℕ → Bytes → Bool → Outcome (ℕ × Bytes)
  unfolding behind_kernel
  encode_from col src do_end =
      if ltb (length src) 12
      then encode_generic line col src do_end
      else (do k ← kernel line col src; behind_kernel src do_end k)

  -- `encodeSIMD`: the new `*colOffset`, and the slice of `dest` that is returned.
  unfoldable pub encode_simd : Option ℤ → Bytes → Bool → Outcome (Option ℤ × Bytes)
  unfolding encode_from start_column store
  encode_simd col [] do_end = ret (col, [])
  encode_simd col (c ∷ r) do_end = do e ← encode_from (start_column col) (c ∷ r) do_end; store col e
