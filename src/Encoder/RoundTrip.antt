-- ===== src/Encoder/RoundTrip.antt =====
-- What the encoder writes, read by the automaton of the decoder.
use rapidyenc.Base.{
  ℕ, ◌+◌, ◌≤◌, false, [], ◌∷◌, ◌++◌, ◌≡◌, ◌≢◌, inl, inr, refl, sym, ap, codes, ◌∙◌, arith, Bytes,
  IsByte, length, length-append, append_assoc, append-nil, ltb, ret, Bool-cases,
}
use rapidyenc.Decoder.{State, crlf, control, decode_generic}
use rapidyenc.Decoder.Refine.{decode_generic-read}
use mathlib.Core.Path.{ap₂}
use rapidyenc.Encoder.{encode_generic}
use rapidyenc.Decoder.Automaton.{Result, read}
use rapidyenc.Encoder.Reference.{
  Slot, start, within, full, mid_code, first_code, last_code, code, next_slot, next_col, encoding,
}
use rapidyenc.Encoder.Refine.{IsBytes, encode_generic-encoding, ret-output}

-- The state of the decoder before the next byte of the encoder.
abbrev pub state_at : Slot → State
state_at start = crlf
state_at s = State.none

read-mid_code :
    (out rest : Bytes) (c : ℕ)
    → IsByte c
    → read out State.none (mid_code c ++ rest) ≡ read (out ++ (c ∷ [])) State.none rest
unfolding read
read-mid_code out rest c b = ground arith

read-last_code :
    (out rest : Bytes) (c : ℕ)
    → IsByte c
    → read out State.none (last_code c ++ rest) ≡ read (out ++ (c ∷ [])) State.none rest
unfolding read
read-last_code out rest c b = ground arith

read-first_code :
    (out rest : Bytes) (c : ℕ)
    → IsByte c
    → read out crlf (first_code c ++ rest) ≡ read (out ++ (c ∷ [])) State.none rest
unfolding read
read-first_code out rest c b = ground arith

read_line_end : (out rest : Bytes) → read out State.none (b'\r' ∷ b'\n' ∷ rest) ≡ read out crlf rest
unfolding read
read_line_end out rest = refl

module _ (line : ℕ) where
  -- One encoded byte is read back, wherever it stands.
  pub read-code :
      (s : Slot) (col : ℕ) (c : ℕ) (out rest : Bytes)
      → IsByte c
      → read out (state_at s) (code line s col c ++ rest) ≡ read (out ++ (c ∷ [])) State.none rest
  read-code start col c out rest b = read-first_code out rest c b
  read-code full col c out rest b = read_line_end out _ ∙ read-first_code out rest c b
  read-code within col c out rest b = elim (Bool-cases (ltb (col + 1) line)) [
    | inl inside ↦ rw inside (read-mid_code out rest c b)
    | inr over ↦ rw over (elim (Bool-cases (ltb col line)) [
      | inl last ↦ rw last (read-last_code out rest c b)
      | inr none_left ↦ rw none_left (read_line_end out _ ∙ read-first_code out rest c b)
    ])
  ]

  pub state_at-next_slot : (s : Slot) (col : ℕ) → state_at (next_slot line s col) ≡ State.none
  state_at-next_slot start col = refl
  state_at-next_slot full col = refl
  state_at-next_slot within col = ground arith

  -- The decoder's state behind the bytes of a call.
  abbrev pub state_after : Slot → Bytes → State
  state_after s [] = state_at s
  state_after s (c ∷ cs) = State.none

  state_after-next_slot :
      (s : Slot) (col : ℕ) (cs : Bytes) → state_after (next_slot line s col) cs ≡ State.none
  state_after-next_slot s col [] = state_at-next_slot s col
  state_after-next_slot s col (c ∷ cs) = refl

  pub read-encoding :
      (s : Slot) (col : ℕ) (cs out rest : Bytes)
      → IsBytes cs
      → read out (state_at s) (encoding line s col cs ++ rest)
        ≡ read (out ++ cs) (state_after s cs) rest
  unfolding encoding
  read-encoding s col [] out rest b = rw append-nil
  read-encoding s col (c ∷ cs) out rest (b, bs) =
      let t = next_slot line s col in
      let later = encoding line t (next_col line s col c) cs ++ rest in
      rw append_assoc (read-code s col c out later b)
      ∙ ap (λ x. read (out ++ (c ∷ [])) x later) (sym (state_at-next_slot s col))
      ∙ read-encoding t (next_col line s col c) cs (out ++ (c ∷ [])) rest bs
      ∙ ap₂ (λ o x. read o x rest) (append_assoc out (c ∷ []) cs) (state_after-next_slot s col cs)

abbrev pub at_control : Bytes → Bytes → Result
at_control src rest = record { out = src; state = State.none; ended = control; rest = rest }

pub read_control :
    (line : ℕ) (src rest : Bytes)
    → src ≢ []
    → read src (state_after line start src) (codes "\r\n=y" ++ rest) ≡ at_control src rest
unfolding read
read_control line [] rest ne = absurd (ne refl)
read_control line (c ∷ cs) rest ne = refl

-- `decodeGeneric` reads back what one call of `encodeGeneric` at column 0 wrote, for every line
-- length, whatever bytes there are: from the start of a line, with a line end and "=y" behind it, it
-- returns those bytes, has taken all up to the 'y', and reports the end of the yEnc data.
pub decode_generic-encode_generic :
    (line dest_len : ℕ) (src rest enc : Bytes) (col : ℕ)
    → src ≢ []
    → IsBytes src
    → encode_generic line 0 src false ≡ ret (col, enc)
    → length (enc ++ (codes "\r\n=y" ++ rest)) ≤ dest_len
    → decode_generic dest_len (enc ++ (codes "\r\n=y" ++ rest)) crlf
      ≡ ret (record { n_src = length enc + 4; decoded = src; state = State.none; ended = control })
decode_generic-encode_generic line dest_len src rest enc col ne b e h =
    let tail = codes "\r\n=y" ++ rest in
    let same : enc ≡ encoding line start 0 src =
      ret-output (sym e ∙ encode_generic-encoding line 0 src ne b) in
    let reads : read [] crlf (enc ++ tail) ≡ at_control src rest =
      rw same (read-encoding line start 0 src [] tail b) ∙ read_control line src rest ne in
    decode_generic-read dest_len (enc ++ tail) crlf (at_control src rest) h reads (λ p. cc)
    ∙ ap (λ n. ret (record { n_src = n; decoded = src; state = State.none; ended = control }))
        (omega (arith, length-append enc tail))
