-- ===== src/Writer/Output.antt =====
-- encoder.go: `NewEncoder`, any series of `Write` and `Close`, over a writer that appends.
use rapidyenc.Base.{
  ℕ, ◌+◌, ◌^◌, ◌<◌, ◌≤◌, sym, ap, ◌∙◌, length, length-append, arith, Bool, true, false, Option,
  none, some, List, [], ◌∷◌, ◌++◌, ◌≡◌, refl, All, Bytes, if◌then◌else◌, append-nil, append_assoc,
  Bool-cases, inl, inr, ◌⊎◌, Outcome, ret, ◌>>=◌,
}
use rapidyenc.Base.Int.{ℤ, pos}
use rapidyenc.Go.Int64.{wrap64, add_int64-wrap64}
use rapidyenc.Crc.Linear.{update-nil, update-lt, update-append}
use rapidyenc.Go.Int64.{eq_ℤ}
use rapidyenc.Go.Crc32.{update}
use rapidyenc.Meta.{Meta}
use rapidyenc.Decoder.{crlf}
use rapidyenc.Decoder.Automaton.{read}
use rapidyenc.Encoder.Refine.{IsBytes}
use rapidyenc.Writer.{
  Error, part_size, Encoder, trailer, close_end_byte, close_trailer, write, close,
}
use rapidyenc.Writer.Stream.{memory, at_close, behind, Holds}
use rapidyenc.Writer.Series.{counted, write-Holds}

-- What a series of calls of `Write`, and `Close` behind them, comes to: the encoder, the writer that
-- it had, and the error. An error ends the series.
abbrev pub Closed : Type 0
Closed = Outcome (Encoder Bytes × Option Bytes × Option (Error memory.Failure))

abbrev pub following :
    (Encoder Bytes → Closed) → Encoder Bytes × Option (Error memory.Failure) → Closed
following k (e, none) = k e
following k (e, some err) = ret (e, e.w, some err)

unfoldable pub write_all : Encoder Bytes → List Bytes → Closed
write_all e [] = close memory e
write_all e (p ∷ ps) = write memory e p >>= following (λ e'. write_all e' ps)

abbrev pub joined : List Bytes → Bytes
joined [] = []
joined (p ∷ ps) = p ++ joined ps

-- The checksum and the count over the pieces.
abbrev pub summed : ℕ → List Bytes → ℕ
summed crc [] = crc
summed crc (p ∷ ps) = summed (update crc p) ps

abbrev pub counted_all : ℤ → List Bytes → ℤ
counted_all z [] = z
counted_all z (p ∷ ps) = counted_all (counted z p) ps

pub summed-joined :
    (crc : ℕ) (ps : List Bytes)
    → crc < 2 ^ 32
    → All IsBytes ps
    → summed crc ps ≡ update crc (joined ps)
summed-joined crc [] h b = sym (update-nil crc h)
summed-joined crc (p ∷ ps) h (b, bs) =
    summed-joined (update crc p) ps (update-lt crc p) bs ∙ update-append crc p (joined ps) b

counted_all-joined_from :
    (m : ℕ) (ps : List Bytes)
    → counted_all (wrap64 (pos m)) ps ≡ wrap64 (pos (m + length (joined ps)))
counted_all-joined_from m [] = ap (λ n. wrap64 (pos n)) (omega arith)
counted_all-joined_from m ([] ∷ ps) = counted_all-joined_from m ps
counted_all-joined_from m ((c ∷ p) ∷ ps) =
    ap (λ z. counted_all z ps) (add_int64-wrap64 m (length (c ∷ p)))
    ∙ counted_all-joined_from (m + length (c ∷ p)) ps
    ∙ ap (λ n. wrap64 (pos n)) (omega (arith, length-append (c ∷ p) (joined ps)))

pub counted_all-joined :
    (ps : List Bytes) → counted_all (pos 0) ps ≡ wrap64 (pos (length (joined ps)))
unfolding wrap64
counted_all-joined ps =
    let e : 0 + length (joined ps) ≡ length (joined ps) = omega arith in
    counted_all-joined_from 0 ps ∙ ap (λ n. wrap64 (pos n)) e

-- What `Close` sends and returns behind the text.
abbrev pub ending : Bool → Meta → ℕ → Bytes
ending true m crc = []
ending false m crc = trailer m crc

abbrev pub size_error : Bool → Meta → ℤ → Option (Error memory.Failure)
size_error true m n = none
size_error false m n = if eq_ℤ n m.part_size then none else some (part_size m.part_size n)

close_end_byte-Holds :
    (held src : Bytes) (e : Encoder Bytes)
    → Holds held src e
    → (text : Bytes) × (close_end_byte memory e e.end_byte
        ≡ ret (record e { w = some (held ++ text) }, none))
      × ((rest : Bytes) → read [] crlf (text ++ rest) ≡ read src (behind src) rest)
unfolding close_end_byte
close_end_byte-Holds held src e v = elim v.kept [
  | inl nothing ↦ (v.text, rw (nothing, v.sent) refl, λ rest. rw nothing at (v.opens rest))
  | inr (b, byte) ↦ (
    v.text ++ at_close (b ∷ []),
    rw (byte, v.sent, append_assoc) refl,
    λ rest. rw append_assoc (rw byte at (v.closes rest)),
  )
]

close-Holds :
    (held src : Bytes) (e : Encoder Bytes)
    → Holds held src e
    → (text : Bytes) × (close memory e
        ≡ ret (
          record e { w = none },
          some ((held ++ text) ++ ending e.raw e.m e.crc),
          size_error e.raw e.m e.processed,
        ))
      × ((rest : Bytes) → read [] crlf (text ++ rest) ≡ read src (behind src) rest)
unfolding close close_trailer
close-Holds held src e v =
    let e0 = record e { w = some (held ++ v.text) } in
    let v0 : Holds held src e0 = record {
      text = v.text;
      sent = refl;
      kept = v.kept;
      opens = v.opens;
      closes = v.closes;
      slot = v.slot;
    } in
    let (text, ends, reads) = close_end_byte-Holds held src e0 v0 in
    (
      text,
      elim (Bool-cases e.raw) [
        | inl raw ↦ rw (v.sent, ends, raw, append-nil) refl
        | inr cooked ↦ elim (Bool-cases (eq_ℤ e.processed e.m.part_size)) [
          | inl same ↦ rw (v.sent, ends, cooked, same) refl
          | inr other ↦ rw (v.sent, ends, cooked, other) refl
        ]
      ],
      reads,
    )

-- Any series of pieces on an encoder whose header is written, or that writes none.
pub write_all-Holds :
    (pieces : List Bytes) (held src : Bytes) (e : Encoder Bytes)
    → Holds held src e
    → e.raw ≡ true ⊎ e.h_written ≡ true
    → 1 ≤ e.line_length
    → All IsBytes pieces
    → (e' : Encoder Bytes) × (text : Bytes) × (write_all e pieces
        ≡ ret (
          e',
          some ((held ++ text) ++ ending e.raw e.m (summed e.crc pieces)),
          size_error e.raw e.m (counted_all e.processed pieces),
        ))
      × ((rest : Bytes)
          → read [] crlf (text ++ rest)
            ≡ read (src ++ joined pieces) (behind (src ++ joined pieces)) rest)
unfolding write_all
write_all-Holds [] held src e v ready h b =
    let (text, closes, reads) = close-Holds held src e v in
    (record e { w = none }, text, closes, rw append-nil reads)
write_all-Holds (p ∷ ps) held src e v ready h (b, bs) =
    let (e1, writes, v1, k, crc, count) = write-Holds held src e p v ready h b in
    let (e2, text, later, reads) =
      write_all-Holds ps held (src ++ p) e1 v1 (rw (k.raw, k.header) ready) (rw k.line h) bs in
    (e2, text, rw writes (rw (k.raw, k.meta, crc, count) at later), rw append_assoc at reads)
