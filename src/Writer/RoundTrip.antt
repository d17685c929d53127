-- ===== src/Writer/RoundTrip.antt =====
-- encoder.go against the decoder: what a series of writes leaves is read back as the bytes written.
use rapidyenc.Base.{
  ℕ, ◌+◌, ◌≤◌, Bool, true, false, none, some, List, [], ◌∷◌, ◌++◌, ◌≡◌, ◌≢◌, refl, sym, ap, ◌∙◌,
  arith, All, Bytes, length, append-nil, inl, inr, ret, codes, length-append,
}
use rapidyenc.Base.Int.{pos}
use rapidyenc.Go.Crc32.{update}
use rapidyenc.Go.Int64.{wrap64}
use rapidyenc.Meta.{Meta, validate}
use rapidyenc.Decoder.{State, crlf, control, decode_generic}
use rapidyenc.Decoder.Automaton.{read}
use rapidyenc.Decoder.Refine.{decode_generic-read}
use rapidyenc.Encoder.Refine.{IsBytes}
use rapidyenc.Writer.{
  Encoder, header, trailer, write, write_header, reset, new_encoder, with_raw, with_line_length,
}
use rapidyenc.Writer.Stream.{memory, behind}
use rapidyenc.Writer.Output.{
  write_all, joined, summed-joined, counted_all-joined, size_error, write_all-Holds,
}

-- The decoder takes `text`, with an end of the yEnc data and `rest` behind it, for `src`, in a slice
-- that is `spare` bytes longer than its input.
abbrev pub IsReadAs : Bytes → Bytes → Bytes → ℕ → Type 0
IsReadAs src text rest spare =
    decode_generic (length (text ++ (codes "\r\n=y" ++ rest)) + spare)
      (text ++ (codes "\r\n=y" ++ rest)) crlf
    ≡ ret (record { n_src = length text + 4; decoded = src; state = State.none; ended = control })

read_end :
    (src rest : Bytes)
    → src ≢ []
    → read src (behind src) (codes "\r\n=y" ++ rest)
      ≡ record { out = src; state = State.none; ended = control; rest = rest }
unfolding read
read_end [] rest some_src = absurd (some_src refl)
read_end (c ∷ cs) rest some_src = refl

read_as :
    (src text rest : Bytes) (spare : ℕ)
    → src ≢ []
    → ((rest : Bytes) → read [] crlf (text ++ rest) ≡ read src (behind src) rest)
    → IsReadAs src text rest spare
read_as src text rest spare some_src reads =
    let tail = codes "\r\n=y" ++ rest in
    decode_generic-read (length (text ++ tail) + spare) (text ++ tail) crlf
      (record { out = src; state = State.none; ended = control; rest = rest }) (omega arith)
      (reads tail ∙ read_end src rest some_src) (λ p. cc)
    ∙ ap (λ n. ret (record { n_src = n; decoded = src; state = State.none; ended = control }))
        (omega (arith, length-append text tail))

-- A new encoder with the line length `line`, whose writer holds nothing yet.
abbrev pub raw_encoder : ℕ → Meta → Encoder Bytes
raw_encoder line m = (new_encoder memory (some []) m (with_line_length line ∷ with_raw ∷ [])).0

abbrev pub part_encoder : ℕ → Meta → Encoder Bytes
part_encoder line m = (new_encoder memory (some []) m (with_line_length line ∷ [])).0

-- For a line length of 1 or more, a raw encoder may be given its bytes in pieces of any lengths: all
-- calls of `Write` and the `Close` behind them return without an error, and the decoder reads what
-- they wrote, to the byte, as the pieces joined, if those hold a byte.
pub write_all-raw :
    (line : ℕ) (m : Meta) (pieces : List Bytes) (rest : Bytes) (spare : ℕ)
    → 1 ≤ line
    → All IsBytes pieces
    → joined pieces ≢ []
    → (e : Encoder Bytes) × (text : Bytes) × (write_all (raw_encoder line m) pieces
        ≡ ret (e, some text, none))
      × IsReadAs (joined pieces) text rest spare
unfolding new_encoder reset
write_all-raw line m pieces rest spare h b some_bytes =
    let (e, text, writes, reads) =
      write_all-Holds pieces [] [] (raw_encoder line m)
        (record {
          text = [];
          sent = refl;
          kept = inl refl;
          opens = λ rest. refl;
          closes = λ rest. refl;
          slot = refl;
        })
        (inl refl) h b in
    (e, text, rw append-nil at writes, read_as (joined pieces) text rest spare some_bytes reads)

-- The first `Write` puts the header before the text.
header_first :
    (e : Encoder Bytes) (w p : Bytes)
    → e.w ≡ some w
    → e.raw ≡ false
    → e.h_written ≡ false
    → write memory e p
      ≡ write memory (record e { w = some (w ++ header e.m e.line_length); h_written = true }) p
unfolding write write_header
header_first e w p sent cooked fresh = rw (sent, cooked, fresh) refl

-- A new encoder of a part, but for what its writer holds and whether it wrote the header.
abbrev part_from : ℕ → Meta → Bytes → Bool → Encoder Bytes
part_from line m held written = record {
  w = some held;
  m = m;
  h_written = written;
  crc = 0;
  line_length = line;
  raw = false;
  column = 0;
  processed = pos 0;
  buf = 0;
  end_byte = [];
}

part_encoder-valid :
    (line : ℕ) (m : Meta) → validate m ≡ none → part_encoder line m ≡ part_from line m [] false
unfolding new_encoder reset
part_encoder-valid line m valid = rw (part_encoder, valid) refl

-- For a line length of 1 or more and a header that is valid, one write or more and `Close` return, and
-- leave the header, a text that the decoder reads as the pieces joined, and the trailer with the
-- CRC-32 of the pieces joined. `Close` names a wrong size just when their length, as an int64,
-- differs from the size of the part. The pieces hold a byte at least.
pub write_all-part :
    (line : ℕ) (m : Meta) (p : Bytes) (ps : List Bytes) (rest : Bytes) (spare : ℕ)
    → 1 ≤ line
    → validate m ≡ none
    → All IsBytes (p ∷ ps)
    → joined (p ∷ ps) ≢ []
    → (e : Encoder Bytes) × (text : Bytes) × (write_all (part_encoder line m) (p ∷ ps)
        ≡ ret (
          e,
          some ((header m line ++ text) ++ trailer m (update 0 (joined (p ∷ ps)))),
          size_error false m (wrap64 (pos (length (joined (p ∷ ps))))),
        ))
      × IsReadAs (joined (p ∷ ps)) text rest spare
unfolding write_all
write_all-part line m p ps rest spare h valid b some_bytes =
    let e0 = part_from line m (header m line) true in
    let (e, text, writes, reads) =
      write_all-Holds (p ∷ ps) (header m line) [] e0
        (record {
          text = [];
          sent = ap some (sym (append-nil (header m line)));
          kept = inl refl;
          opens = λ rest. refl;
          closes = λ rest. refl;
          slot = refl;
        })
        (inr refl) h b in
    (
      e,
      text,
      rw
          (
            part_encoder-valid line m valid,
            header_first (part_from line m [] false) [] p refl refl refl,
          )
          (rw (summed-joined 0 (p ∷ ps) (omega arith) b, counted_all-joined (p ∷ ps)) at writes),
      read_as (joined (p ∷ ps)) text rest spare some_bytes reads,
    )
