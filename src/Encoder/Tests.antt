-- ===== src/Encoder/Tests.antt =====
-- Runs of `encodeGeneric` on concrete bytes, and its theorems at concrete inputs.
use rapidyenc.Base.{
  ℕ, ◌+◌, ◌++◌, length, false, true, [], ◌∷◌, ◌≡◌, refl, arith, Bytes, codes, replicate, ret,
}
use rapidyenc.Decoder.{State, crlf, control, decode_generic}
use rapidyenc.Encoder.{encode_generic}
use rapidyenc.Encoder.Reference.{start, encoding, end_col}
use rapidyenc.Encoder.Refine.{encode_generic-encoding}
use rapidyenc.Encoder.Lines.{line_start, is_wrapped, encode_generic-is_wrapped}
use rapidyenc.Encoder.Columns.{encode_each, last_codes, encode_each_lem}
use rapidyenc.Encoder.Ending.{EndsVisible, encode_generic_end}
use rapidyenc.Encoder.RoundTrip.{decode_generic-encode_generic}

-- NUL, LF, CR and '=' once encoded, a blank and a dot.
abbrev specials : Bytes
specials = 214 ∷ 224 ∷ 227 ∷ 19 ∷ 246 ∷ 4 ∷ []

encode_specials : encode_generic 128 0 specials true ≡ ret (10, codes "=@=J=M=} .")
unfolding encode_generic
encode_specials = refl

-- Lines of nine bytes: a batch of eight that does not fit is taken back.
encode_lines :
    encode_generic 9 0 (replicate 20 4) false ≡ ret (5, codes "=n.......\r\n=n.......\r\n=n...")
unfolding encode_generic
encode_lines = refl

-- The column that is kept does not count the byte in the last column.
encode_last : encode_generic 4 0 (246 ∷ 246 ∷ 246 ∷ []) false ≡ ret (3, codes "=` =`")
unfolding encode_generic
encode_last = refl

encode_short : encode_generic 4 0 (246 ∷ 246 ∷ 246 ∷ 246 ∷ []) false ≡ ret (2, codes "=` =`\r\n=`")
unfolding encode_generic
encode_short = refl

encode_generic-encoding_example :
    encode_generic 4 0 specials false
    ≡ ret (end_col 4 start 0 specials, encoding 4 start 0 specials)
encode_generic-encoding_example = encode_generic-encoding 4 0 specials (λ e. cc) (omega arith)

encode_generic-is_wrapped_example : is_wrapped 4 line_start (codes "=` =`\r\n=`") ≡ true
encode_generic-is_wrapped_example =
    encode_generic-is_wrapped 4 (246 ∷ 246 ∷ 246 ∷ 246 ∷ []) (codes "=` =`\r\n=`") 2 (omega arith)
      (λ e. cc) (omega arith) encode_short

decode_generic-encode_generic_example :
    decode_generic 20 (codes "=` =`\r\n=`\r\n=yend") crlf
    ≡ ret (record {
      n_src = 13;
      decoded = 246 ∷ 246 ∷ 246 ∷ 246 ∷ [];
      state = State.none;
      ended = control;
    })
decode_generic-encode_generic_example =
    decode_generic-encode_generic 4 20 (246 ∷ 246 ∷ 246 ∷ 246 ∷ []) (codes "end")
      (codes "=` =`\r\n=`") 2 (λ e. cc) (omega arith) encode_short (omega arith)

encode_each_example : encode_each 4 3 (1 ∷ 19 ∷ 223 ∷ []) ≡ ret (3, last_codes (1 ∷ 19 ∷ 223 ∷ []))
encode_each_example = encode_each_lem 3 (1 ∷ 19 ∷ 223 ∷ []) (omega arith) (omega arith)

encode_generic_end_example :
    (col : ℕ) × (out : Bytes) × (encode_generic 4 0 (104 ∷ 223 ∷ []) true ≡ ret (col, out))
    × EndsVisible out
    × (decode_generic
          (length (out ++ (codes "\r\n=y" ++ [])) + 2)
          (out ++ (codes "\r\n=y" ++ []))
          crlf
        ≡ ret (record {
          n_src = length out + 4;
          decoded = 104 ∷ 223 ∷ [];
          state = State.none;
          ended = control;
        }))
encode_generic_end_example = encode_generic_end 4 104 (223 ∷ []) [] 2 (omega arith)
