-- ===== src/Encoder/Ending.antt =====
-- `encodeGeneric` with `doEnd`: a call that writes the end of the data.
use rapidyenc.Base.{
  ℕ, ◌+◌, true, false, some, [], ◌∷◌, ◌++◌, ◌≡◌, refl, ap, ◌∙◌, arith, Bytes, codes, add_byte,
  length, length-append, append_assoc, ret, Bool-cases, Option-cases, inl, inr,
}
use rapidyenc.Decoder.{State, crlf, control, decode_generic}
use rapidyenc.Decoder.Automaton.{read}
use rapidyenc.Decoder.Refine.{decode_generic-read}
use rapidyenc.Encoder.{get_last?, escape_at, escape_last, encode_generic}
use rapidyenc.Encoder.Reference.{start, is_blank, encoding, end_col}
use rapidyenc.Encoder.Refine.{IsBytes, encode_loop-encoding}
use rapidyenc.Encoder.RoundTrip.{read-encoding, read_control, at_control}
use rapidyenc.Encoder.Blanks.{
  front, escaped_end, read-encoding_end, encoding-some, get_last?-none, get_last?-append,
}

-- No tab and no space at the end of a text.
abbrev pub EndsVisible : Bytes → Type 0
EndsVisible out = (b : ℕ) × (get_last? out ≡ some b) × (is_blank b ≡ false)

last_of_two : (xs : Bytes) (a b : ℕ) → get_last? (xs ++ (a ∷ b ∷ [])) ≡ some b
last_of_two xs a b = get_last?-append xs (a ∷ b ∷ []) (λ e. cc)

escaped_blank : (b : ℕ) → is_blank b ≡ true → is_blank (add_byte b 64) ≡ false
escaped_blank b h = ground arith

-- What the end of a call makes of the text: it is read as before, and ends visibly.
escape_last-read :
    (line col : ℕ) (c : ℕ) (cs : Bytes)
    → IsBytes (c ∷ cs)
    → (out : Bytes) × (col' : ℕ) × (escape_last (col, encoding line start 0 (c ∷ cs))
        ≡ ret (col', out))
      × ((rest : Bytes) → read [] crlf (out ++ rest) ≡ read (c ∷ cs) State.none rest)
      × EndsVisible out
unfolding escape_last escape_at
escape_last-read line col c cs h =
    let enc = encoding line start 0 (c ∷ cs) in
    elim (Option-cases (get_last? enc)) [
      | inl no_last ↦ absurd (encoding-some line start 0 c cs (get_last?-none enc no_last))
      | inr (b, last) ↦ elim (Bool-cases (is_blank b)) [
        | inl blank ↦ (
          front enc ++ escaped_end b,
          col + 1,
          rw (last, blank) refl,
          λ rest.
              rw (append_assoc (front enc) (escaped_end b) rest)
                (read-encoding_end line start 0 (c ∷ cs) b [] rest h last blank),
          (add_byte b 64, last_of_two (front enc) b'=' (add_byte b 64), escaped_blank b blank),
        )
        | inr plain ↦ (
          enc,
          col,
          rw (last, plain) refl,
          λ rest. read-encoding line start 0 (c ∷ cs) [] rest h,
          (b, last, plain),
        )
      ]
    ]

-- With `doEnd`, one call of `encodeGeneric` at column 0 returns on one byte or more, and writes a text
-- without a blank at its end, which `decodeGeneric` reads back from the start of a line, in a slice
-- that is longer than its input by `spare`.
pub encode_generic_end :
    (line c : ℕ) (cs rest : Bytes) (spare : ℕ)
    → IsBytes (c ∷ cs)
    → (col : ℕ) × (out : Bytes) × (encode_generic line 0 (c ∷ cs) true ≡ ret (col, out))
      × EndsVisible out
      × (decode_generic
            (length (out ++ (codes "\r\n=y" ++ rest)) + spare)
            (out ++ (codes "\r\n=y" ++ rest))
            crlf
          ≡ ret (record {
            n_src = length out + 4;
            decoded = c ∷ cs;
            state = State.none;
            ended = control;
          }))
unfolding encode_generic
encode_generic_end line c cs rest spare h =
    let tail = codes "\r\n=y" ++ rest in
    let (out, col, ends, reads, visible) =
      escape_last-read line (end_col line start 0 (c ∷ cs)) c cs h in
    (
      col,
      out,
      rw (encode_loop-encoding line 0 (c ∷ cs) (λ e. cc) h) ends,
      visible,
      decode_generic-read _ (out ++ tail) crlf (at_control (c ∷ cs) rest) (omega arith)
            (reads tail ∙ read_control line (c ∷ cs) rest (λ e. cc)) (λ p. cc)
          ∙ ap
              (λ n.
                ret (record { n_src = n; decoded = c ∷ cs; state = State.none; ended = control }))
              (omega (arith, length-append out tail)),
    )
