-- ===== src/Encoder/Columns.antt =====
-- Calls of `encodeGeneric` with one byte each, which is how a writer is fed byte by byte.
use rapidyenc.Base.{
  ℕ, zero, suc, ◌+◌, ◌≤◌, true, false, [], ◌∷◌, ◌++◌, ◌≡◌, refl, ◌∙◌, arith, Bytes, IsByte, ltb,
  Outcome, ret, ◌>>=◌, append-nil,
}
use rapidyenc.Encoder.{encode_generic}
use rapidyenc.Encoder.Reference.{last_code, encoding, end_col}
use rapidyenc.Encoder.Refine.{IsBytes, encode_generic-encoding}

-- One call for each byte, the column handed on; what the calls write is put together.
unfoldable pub encode_each : ℕ → ℕ → Bytes → Outcome (ℕ × Bytes)
encode_each line col [] = ret (col, [])
encode_each line col (c ∷ cs) = do
  (col', out) ← encode_generic line col (c ∷ []) false
  (end, more) ← encode_each line col' cs
  ret (end, out ++ more)

-- Every byte as it is written in the last column of a line.
unfoldable pub last_codes : Bytes → Bytes
last_codes [] = []
last_codes (c ∷ cs) = last_code c ++ last_codes cs

encode_generic_last :
    (col c : ℕ)
    → 1 ≤ col
    → IsByte c
    → encode_generic (suc col) col (c ∷ []) false ≡ ret (col, last_code c)
unfolding encoding end_col
encode_generic_last zero c h b = absurd (omega (arith, h))
encode_generic_last (suc k) c h b =
    let not_before : ltb (suc k + 1) (suc (suc k)) ≡ false = ground arith in
    let last : ltb (suc k) (suc (suc k)) ≡ true = ground arith in
    encode_generic-encoding (suc (suc k)) (suc k) (c ∷ []) (λ e. cc) (b, tt)
    ∙ rw (not_before, last, append-nil) refl

-- For a line length of 2 or more, once the column is the last of the line, calls with one byte each
-- return that same column, however many bytes follow: each byte is written as the last one of a line,
-- and no line end comes.
pub encode_each_lem :
    (col : ℕ) (cs : Bytes)
    → 1 ≤ col
    → IsBytes cs
    → encode_each (suc col) col cs ≡ ret (col, last_codes cs)
unfolding encode_each last_codes
encode_each_lem col [] h b = refl
encode_each_lem col (c ∷ cs) h (b, bs) =
    rw (encode_generic_last col c h b, encode_each_lem col cs h bs) refl
