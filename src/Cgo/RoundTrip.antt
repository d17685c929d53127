-- ===== src/Cgo/RoundTrip.antt =====
-- encoder_cgo.go, `Encode`: for a library that encodes as its header says, the output fits and reads
-- back.
use rapidyenc.Base.{
  ℕ, add_byte, ◌+◌, ◌≤◌, ◌-◌, ◌||◌, ◌==◌, true, none, some, [], ◌∷◌, ◌++◌, ◌≡◌, refl, sym, ap, ◌∙◌,
  ◌≢◌, arith, Bytes, codes, length, take, length-append, length-take, leb, ret, panic, Bool-cases,
  Option-cases, inl, inr,
}
use rapidyenc.Decoder.{State, crlf, control, decode_generic}
use rapidyenc.Encoder.{encode_generic, escape_last, escape_at, get_last?}
use rapidyenc.Encoder.Refine.{IsBytes, encode_loop-encoding, encode_generic-encoding, ret-output}
use rapidyenc.Encoder.Reference.{start, encoding, end_col}
use rapidyenc.Encoder.Ending.{EndsVisible, encode_generic_end}
use rapidyenc.Writer.{max_length}
use rapidyenc.Writer.Bounds.{encode_generic-max_length}
use rapidyenc.Cgo.{encode}

-- rapidyenc_encode is "an alias for rapidyenc_encode_ex(128, NULL, src, dest, src_length, 1)", which
-- encodes as the code in Go does.
abbrev pub IsEncoder : (Bytes → Bytes) → Type 0
IsEncoder c_encode =
    (c : ℕ) (cs : Bytes)
    → IsBytes (c ∷ cs)
    → (col : ℕ) × (encode_generic 128 0 (c ∷ cs) true ≡ ret (col, c_encode (c ∷ cs)))

get_last?-length : (xs : Bytes) (b : ℕ) → get_last? xs ≡ some b → 1 ≤ length xs
get_last?-length [] b e = absurd cc
get_last?-length (x ∷ xs) b e = omega arith

escape_last-length :
    (col : ℕ) (out : Bytes) (col' : ℕ) (out' : Bytes)
    → escape_last (col, out) ≡ ret (col', out')
    → length out' ≤ length out + 1
unfolding escape_last escape_at
escape_last-length col out col' out' e = elim (Option-cases (get_last? out)) [
  | inl no_last ↦ let never : panic ≡ ret (col', out') = rw no_last at e in absurd cc
  | inr (b, last) ↦ elim (Bool-cases (b == b'\t' || b == b' ')) [
    | inl blank ↦
        let same = ret-output (rw (last, blank) at e) in
        omega (
          arith,
          get_last?-length out b last,
          ap length same,
          length-take (length out - 1) out,
          length-append (take (length out - 1) out) (b'=' ∷ add_byte b 64 ∷ []),
        )
    | inr plain ↦ let same = ret-output (rw (last, plain) at e) in omega (arith, ap length same)
  ]
]

encoded-fits :
    (c : ℕ) (cs : Bytes) (col : ℕ) (out : Bytes)
    → IsBytes (c ∷ cs)
    → encode_generic 128 0 (c ∷ cs) true ≡ ret (col, out)
    → (n : ℕ) × (max_length (length (c ∷ cs)) 128 ≡ ret n) × (length out ≤ n)
unfolding encode_generic
encoded-fits c cs col out b e =
    let enc = encoding 128 start 0 (c ∷ cs) in
    let some_byte : (c ∷ cs) ≢ [] = λ p. cc in
    let (n, most, fits) =
      encode_generic-max_length 128 0 (c ∷ cs) enc (end_col 128 start 0 (c ∷ cs)) (omega arith)
        (omega arith) some_byte b (encode_generic-encoding 128 0 (c ∷ cs) some_byte b) in
    let last =
      escape_last-length _ enc col out
        (rw (encode_loop-encoding 128 0 (c ∷ cs) some_byte b) at e) in
    (n, most, omega (arith, fits, last))

-- For a C library that encodes as encode_generic does, `Encode` returns on one byte or more: the
-- output fits into the slice that is made for it, has no blank at its end, and is read back by
-- `decodeGeneric` from the start of a line, in a slice that is longer than its input by `spare`. On no
-- bytes it gives the error of an empty source.
pub encode-decode_generic :
    (c_encode : Bytes → Bytes) (c : ℕ) (cs rest : Bytes) (spare : ℕ)
    → IsEncoder c_encode
    → IsBytes (c ∷ cs)
    → (encode c_encode [] ≡ ret none)
      × (out : Bytes) × (encode c_encode (c ∷ cs) ≡ ret (some out))
      × EndsVisible out
      × (decode_generic
            (length (out ++ (codes "\r\n=y" ++ rest)) + spare)
            (out ++ (codes "\r\n=y" ++ rest))
            crlf
          ≡ ret (record {
            n_src = length out + 4;
            decoded = c ∷ cs;
            state = State.none;
            ended = control;
          }))
unfolding encode
encode-decode_generic c_encode c cs rest spare is b =
    let (col, out, e, visible, reads) = encode_generic_end 128 c cs rest spare b in
    let (col', e') = is c cs b in
    let same : out ≡ c_encode (c ∷ cs) = ret-output (sym e ∙ e') in
    let (n, most, fits) = encoded-fits c cs col out b e in
    let room : leb (length out) n ≡ true = ground (arith, fits) in
    (refl, out, rw (most, sym same, room) refl, visible, reads)
