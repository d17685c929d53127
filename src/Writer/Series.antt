-- ===== src/Writer/Series.antt =====
-- encoder.go: a series of calls of `Write` with `Close` behind it, over a writer that appends.
use rapidyenc.Base.{
  ℕ, zero, suc, ◌+◌, ◌*◌, ◌/◌, ◌^◌, ◌≤◌, true, false, none, some, [], ◌∷◌, ◌++◌, ◌≡◌, refl, sym, ap,
  ◌∙◌, arith, Bytes, length, ◌==◌, if◌then◌else◌, append-nil, Bool-cases, inl, inr, ◌⊎◌, ret,
}
use Prim.Native.Nat.{max}
use rapidyenc.Base.Int.{ℤ, pos}
use rapidyenc.Go.Int64.{add_int64}
use rapidyenc.Go.Crc32.{update}
use rapidyenc.Decoder.{State, crlf}
use rapidyenc.Decoder.Automaton.{read}
use rapidyenc.Encoder.Reference.{Slot, start, within, full, slot_at, next_col, encoding, end_col}
use rapidyenc.Encoder.Refine.{IsBytes, encode_generic-encoding}
use rapidyenc.Encoder.RoundTrip.{state_at, read-encoding}
use rapidyenc.Encoder.Blanks.{front, escaped_end, read-encoding_end, encoding-some}
use rapidyenc.Writer.{Encoder, max_length, write_header, write_data, write}
use rapidyenc.Writer.Stream.{memory, behind, Holds, write_end_byte-Holds, write_encoded-Holds}

-- A column that is not 0 stays so.
next_col-positive : (line : ℕ) (s : Slot) (col c : ℕ) → 1 ≤ col → 1 ≤ next_col line s col c
next_col-positive line start col c h = ground arith
next_col-positive line within col c h = ground arith
next_col-positive line full col c h = ground arith

end_col-positive :
    (line : ℕ) (cs : Bytes) (s : Slot) (col : ℕ) → 1 ≤ col → 1 ≤ end_col line s col cs
unfolding end_col
end_col-positive line [] s col h = h
end_col-positive line (c ∷ cs) s col h =
    end_col-positive line cs _ _ (next_col-positive line s col c h)

end_col_some : (line col c : ℕ) (cs : Bytes) → 1 ≤ end_col line (slot_at col) col (c ∷ cs)
unfolding end_col
end_col_some line zero c cs = end_col-positive line cs _ _ (ground arith)
end_col_some line (suc col) c cs =
    end_col-positive line cs _ _ (next_col-positive line within (suc col) c (omega arith))

state_at-within : (col : ℕ) → 1 ≤ col → state_at (slot_at col) ≡ State.none
state_at-within zero h = absurd (omega (arith, h))
state_at-within (suc col) h = refl

behind-append : (src : Bytes) (c : ℕ) (p : Bytes) → behind (src ++ (c ∷ p)) ≡ State.none
behind-append [] c p = refl
behind-append (x ∷ src) c p = refl

max_length-ret : (n line : ℕ) → 1 ≤ line → (k : ℕ) × (max_length n line ≡ ret k)
unfolding max_length
max_length-ret n line h = elim (Bool-cases (line == 128)) [
  | inl common ↦ (n * 2 + 2 + 64 + 2 * (n / 2 ^ 6), rw common refl)
  | inr other ↦
      let e : (line == 0) ≡ false = ground arith in
      (n * 2 + 2 + 64 + 2 * (n * 2 / line), rw (other, e) refl)
]

-- The bytes that `Write` counts; an empty piece leaves the count alone.
abbrev pub counted : ℤ → Bytes → ℤ
counted z [] = z
counted z (c ∷ p) = add_int64 z (pos (length (c ∷ p)))

-- What a call of `Write` does not change.
pub record Settings (e e' : Encoder Bytes) : Type 0 where
  pub line : e'.line_length ≡ e.line_length
  pub raw : e'.raw ≡ e.raw
  pub header : e'.h_written ≡ e.h_written
  pub meta : e'.m ≡ e.m

write_data-Holds :
    (held src : Bytes) (e : Encoder Bytes) (p : Bytes)
    → Holds held src e
    → e.end_byte ≡ []
    → 1 ≤ e.line_length
    → IsBytes p
    → (e' : Encoder Bytes) × (write_data memory e p ≡ ret (e', none))
      × Holds held (src ++ p) e'
      × Settings e e'
      × (e'.crc ≡ e.crc)
      × (e'.processed ≡ counted e.processed p)
unfolding write_data
write_data-Holds held src e [] v nothing h b = (
  e,
  refl,
  rw append-nil v,
  record { line = refl; raw = refl; header = refl; meta = refl },
  refl,
  refl,
)
write_data-Holds held src e (c ∷ p) v nothing h b =
    let line = e.line_length in
    let col = e.column in
    let enc = encoding line (slot_at col) col (c ∷ p) in
    let (n, size) = max_length-ret (length (c ∷ p)) line h in
    let go = behind-append src c p in
    let from : (rest : Bytes)
        → read [] crlf (v.text ++ rest) ≡ read src (state_at (slot_at col)) rest =
      λ rest. rw nothing at (v.opens rest) ∙ ap (λ s. read src s rest) (sym v.slot) in
    let (e', same, w, k) =
      write_encoded-Holds held (src ++ (c ∷ p)) v.text enc
        (record e {
          processed = add_int64 e.processed (pos (length (c ∷ p)));
          buf = max e.buf n;
          column = end_col line (slot_at col) col (c ∷ p);
        })
        v.sent nothing (state_at-within _ (end_col_some line col c p) ∙ sym go)
        (encoding-some line (slot_at col) col c p)
        (λ rest.
          from (enc ++ rest)
          ∙ read-encoding line (slot_at col) col (c ∷ p) src rest b
          ∙ ap (λ s. read (src ++ (c ∷ p)) s rest) (sym go))
        (λ d last blank rest.
          from (front enc ++ (escaped_end d ++ rest))
          ∙ read-encoding_end line (slot_at col) col (c ∷ p) d src rest b last blank
          ∙ ap (λ s. read (src ++ (c ∷ p)) s rest) (sym go)) in
    (
      e',
      rw (size, encode_generic-encoding line col (c ∷ p) (λ q. cc) b) same,
      w,
      record { line = k.line; raw = k.raw; header = k.header; meta = k.meta },
      k.crc,
      k.processed,
    )

header_done :
    (e : Encoder Bytes)
    → e.raw ≡ true ⊎ e.h_written ≡ true
    → (if e.raw then ret (e, none) else write_header memory e) ≡ ret (e, none)
unfolding write_header
header_done e (inl raw) = rw raw refl
header_done e (inr written) = elim (Bool-cases e.raw) [
  | inl raw ↦ rw raw refl
  | inr cooked ↦ rw (cooked, written) refl
]

-- `Write` on an encoder whose header is written, or that writes none.
pub write-Holds :
    (held src : Bytes) (e : Encoder Bytes) (p : Bytes)
    → Holds held src e
    → e.raw ≡ true ⊎ e.h_written ≡ true
    → 1 ≤ e.line_length
    → IsBytes p
    → (e' : Encoder Bytes) × (write memory e p ≡ ret (e', none))
      × Holds held (src ++ p) e'
      × Settings e e'
      × (e'.crc ≡ update e.crc p)
      × (e'.processed ≡ counted e.processed p)
unfolding write
write-Holds held src e p v ready h b =
    let e0 = record e { w = some (held ++ v.text); crc = update e.crc p } in
    let v0 : Holds held src e0 = record {
      text = v.text;
      sent = refl;
      kept = v.kept;
      opens = v.opens;
      closes = v.closes;
      slot = v.slot;
    } in
    let (e1, sends, v1, nothing, k1) = write_end_byte-Holds held src e0 v0 in
    let (e2, encodes, v2, k2, crc, count) =
      write_data-Holds held src e1 p v1 nothing (rw k1.line h) b in
    (
      e2,
      rw (v.sent, header_done e0 ready, sends) encodes,
      v2,
      record {
        line = k2.line ∙ k1.line;
        raw = k2.raw ∙ k1.raw;
        header = k2.header ∙ k1.header;
        meta = k2.meta ∙ k1.meta;
      },
      crc ∙ k1.crc,
      count ∙ ap (λ z. counted z p) k1.processed,
    )
