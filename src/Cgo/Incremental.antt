-- ===== src/Cgo/Incremental.antt =====
-- encoder_cgo.go, `encodeIncremental`: what it writes for a library that encodes as its header says
-- fits and reads back.
use rapidyenc.Base.{
  ℕ, ◌+◌, ◌≤◌, ◌<◌, ◌^◌, Bool, true, false, [], ◌∷◌, ◌++◌, ◌≡◌, ◌≢◌, refl, arith, Bytes, codes,
  length, leb, ◌==◌, ret,
}
use rapidyenc.Base.Int.{pos}
use rapidyenc.Encoder.{encode_generic}
use rapidyenc.Decoder.{State, crlf, control, decode_generic}
use rapidyenc.Encoder.Reference.{start, encoding, end_col}
use rapidyenc.Encoder.Refine.{IsBytes, encode_generic-encoding}
use rapidyenc.Encoder.RoundTrip.{decode_generic-encode_generic}
use rapidyenc.Writer.{max_length}
use rapidyenc.Writer.Bounds.{encode_generic-max_length}
use rapidyenc.Cgo.{EncodeEx, to_c_int, encode_incremental}

-- rapidyenc_encode_ex writes what encodeGeneric writes, for the same `is_end`, and leaves its column.
abbrev pub IsEncodeEx : EncodeEx → Type 0
IsEncodeEx c_encode_ex =
    (line col : ℕ) (c : ℕ) (cs : Bytes) (is_end : Bool) (col' : ℕ) (out : Bytes)
    → IsBytes (c ∷ cs)
    → encode_generic line col (c ∷ cs) is_end ≡ ret (col', out)
    → c_encode_ex (pos line) (pos col) (c ∷ cs) is_end ≡ (pos col', out)

to_c_int-pos : (n : ℕ) → n < 2 ^ 31 → to_c_int (pos n) ≡ pos n
unfolding to_c_int
to_c_int-pos n h = ground arith

-- With or without `isEnd`, `encodeIncremental` over a C library that encodes as encode_generic does
-- writes what `encodeGeneric` writes without `doEnd`, and leaves its column, for lines and columns
-- below 2^31 and a slice with room for the output.
encode_incremental-encode_generic :
    (c_encode_ex : EncodeEx) (line col dest_len c : ℕ) (cs : Bytes) (is_end : Bool) (col' : ℕ)
    (out : Bytes)
    → IsEncodeEx c_encode_ex
    → line < 2 ^ 31
    → col < 2 ^ 31
    → IsBytes (c ∷ cs)
    → encode_generic line col (c ∷ cs) false ≡ ret (col', out)
    → 1 ≤ dest_len
    → length out ≤ dest_len
    → encode_incremental c_encode_ex (pos line) (pos col) (c ∷ cs) dest_len is_end
      ≡ ret (pos col', out)
unfolding encode_incremental
encode_incremental-encode_generic c_encode_ex line col dest_len c cs is_end col' out is hl hc b e h
      k =
    let call = is line col c cs false col' out b e in
    let some_dest : (dest_len == 0) ≡ false = ground arith in
    let room : leb (length out) dest_len ≡ true = ground arith in
    rw (some_dest, to_c_int-pos line hl, to_c_int-pos col hc, call, room) refl

fits-max_length :
    (line : ℕ) (src enc : Bytes) (col most : ℕ)
    → 1 ≤ line
    → src ≢ []
    → IsBytes src
    → encode_generic line 0 src false ≡ ret (col, enc)
    → max_length (length src) line ≡ ret most
    → length enc + 64 ≤ most
fits-max_length line src enc col most h ne b e m =
    let (n, same, fits) = encode_generic-max_length line 0 src enc col h (omega arith) ne b e in
    let equal : n ≡ most = grind (arith, same, m) in omega (arith, fits, equal)

-- For a C library that encodes as encode_generic does, `encodeIncremental` from column 0 on one byte
-- or more, for a line length from 1 to 2^31 - 1 and a slice of the length that `maxLength` gives, or
-- more: it returns, the same output and column with `isEnd` as without it, and `decodeGeneric` reads
-- the bytes back from the start of a line, in a slice that is longer than its input by `spare`, has
-- taken all up to the 'y' of the "=y" behind them, and reports the end of the yEnc data.
pub encode_incremental-decode_generic :
    (c_encode_ex : EncodeEx) (line dest_len most c : ℕ) (cs rest : Bytes) (spare : ℕ)
    → IsEncodeEx c_encode_ex
    → 1 ≤ line
    → line < 2 ^ 31
    → IsBytes (c ∷ cs)
    → max_length (length (c ∷ cs)) line ≡ ret most
    → most ≤ dest_len
    → (col : ℕ) × (out : Bytes) × ((is_end : Bool)
        → encode_incremental c_encode_ex (pos line) (pos 0) (c ∷ cs) dest_len is_end
          ≡ ret (pos col, out))
      × (decode_generic
            (length (out ++ (codes "\r\n=y" ++ rest)) + spare)
            (out ++ (codes "\r\n=y" ++ rest))
            crlf
          ≡ ret (record {
            n_src = length out + 4;
            decoded = c ∷ cs;
            state = State.none;
            ended = control;
          }))
encode_incremental-decode_generic c_encode_ex line dest_len most c cs rest spare is low high b m
      room =
    let col = end_col line start 0 (c ∷ cs) in
    let out = encoding line start 0 (c ∷ cs) in
    let ne : (c ∷ cs) ≢ [] = λ p. cc in
    let e : encode_generic line 0 (c ∷ cs) false ≡ ret (col, out) =
      encode_generic-encoding line 0 (c ∷ cs) ne b in
    let fits = fits-max_length line (c ∷ cs) out col most low ne b e m in
    (
      col,
      out,
      (λ is_end.
          encode_incremental-encode_generic c_encode_ex line 0 dest_len c cs is_end col out is high
            (omega arith) b e (omega (arith, fits, room)) (omega (arith, fits, room))),
      decode_generic-encode_generic line _ (c ∷ cs) rest out col ne b e (omega arith),
    )
