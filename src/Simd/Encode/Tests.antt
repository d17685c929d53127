-- ===== src/Simd/Encode/Tests.antt =====
-- `encodeSIMD` with a kernel that encodes byte by byte up to the last column of a line.
use rapidyenc.Base.{
  ℕ, zero, suc, ◌<◌, ◌+◌, Bool, true, false, some, [], ◌∷◌, ◌++◌, ◌≡◌, refl, ap, arith, Bytes,
  codes, length, append_assoc, ret, ◌>>=◌, Bool-cases, inl, inr, ltb, if◌then◌else◌,
}
use rapidyenc.Base.Int.{pos, negsuc}
use rapidyenc.Encoder.{encode_generic}
use rapidyenc.Encoder.Reference.{within, slot_at, first_code, mid_code, encoding, end_col, coded}
use rapidyenc.Simd.Encode.{Encoded, Kernel, start_column, store, encode_simd}
use rapidyenc.Simd.Encode.Refine.{IsEncoded, IsKernel, encode_simd-encode_generic}

abbrev idle : ℕ → Encoded
idle col = record { consumed = 0; column = col; written = [] }

abbrev behind_code : Bytes → Encoded → Encoded
behind_code code k = record k { consumed = suc k.consumed; written = code ++ k.written }

abbrev mids : ℕ → ℕ → Bytes → Encoded
mids line col [] = idle col
mids line col (c ∷ r) =
    let k = behind_code (mid_code c) (mids line (col + length (mid_code c)) r) in
    if ltb (col + 1) line then k else idle col

abbrev line_part : ℕ → ℕ → Bytes → Encoded
line_part line zero [] = idle 0
line_part line zero (c ∷ r) = behind_code (first_code c) (mids line (length (first_code c)) r)
line_part line (suc col) src = mids line (suc col) src

unfoldable line_kernel : Kernel
line_kernel line col src = ret (line_part line col src)

slot_at-within : (col : ℕ) → 0 < col → slot_at col ≡ within
slot_at-within zero h = absurd (omega arith)
slot_at-within (suc col) h = refl

length-coded : (escaped : Bool) (c : ℕ) → 0 < length (coded escaped c)
length-coded true c = omega arith
length-coded false c = omega arith

idle-IsEncoded : (line col : ℕ) (src : Bytes) → IsEncoded line col src (idle col)
idle-IsEncoded line col src = record { inside = omega arith; writes = refl; keeps = refl }

mids-IsEncoded : (line col : ℕ) (src : Bytes) → 0 < col → IsEncoded line col src (mids line col src)
unfolding encoding end_col
mids-IsEncoded line col [] h = idle-IsEncoded line col []
mids-IsEncoded line col (c ∷ r) h = elim (Bool-cases (ltb (col + 1) line)) [
  | inl before ↦
      let next = col + length (mid_code c) in
      let w = mids-IsEncoded line next r (omega arith) in
      rw before (record {
        inside = omega (arith, w.inside);
        writes =
            rw (append_assoc, slot_at-within col h, before)
              (ap (λ x. mid_code c ++ x) (rw (slot_at-within next (omega arith)) at w.writes));
        keeps =
            rw (slot_at-within col h, before) (rw (slot_at-within next (omega arith)) at w.keeps);
      })
  | inr last ↦ rw last (idle-IsEncoded line col (c ∷ r))
]

line_kernel-IsKernel : (line : ℕ) → IsKernel line line_kernel
unfolding line_kernel encoding end_col
line_kernel-IsKernel line zero [] long b = absurd (omega arith)
line_kernel-IsKernel line zero (c ∷ r) long b =
    let some_code = length-coded _ c in
    let first : slot_at (length (first_code c)) ≡ within = slot_at-within _ some_code in
    let w = mids-IsEncoded line (length (first_code c)) r some_code in
    (
      _,
      refl,
      record {
        inside = omega (arith, w.inside);
        writes = rw append_assoc (ap (λ x. first_code c ++ x) (rw first at w.writes));
        keeps = rw first at w.keeps;
      },
    )
line_kernel-IsKernel line (suc col) src long b =
    (_, refl, mids-IsEncoded line (suc col) src (omega arith))

-- All is read by the kernel, and the blank at the end is escaped behind it.
abbrev word : Bytes
word = codes "encoding a line" ++ (246 ∷ [])

word_encoded :
    encode_simd line_kernel 64 (some (negsuc 4)) word true
    ≡ (encode_generic 64 0 word true >>= store (some (negsuc 4)))
unfolding encode_simd line_kernel encode_generic store start_column
word_encoded = refl

-- The kernel stops in the last column of a line.
line_kernel_encoded :
    encode_simd line_kernel 6 (some (pos 2)) word true
    ≡ (encode_generic 6 (start_column (some (pos 2))) word true >>= store (some (pos 2)))
line_kernel_encoded =
    encode_simd-encode_generic line_kernel 6 (line_kernel-IsKernel 6) true (some (pos 2)) word
      (λ e. cc) (omega arith)
