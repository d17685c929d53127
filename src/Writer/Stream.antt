-- ===== src/Writer/Stream.antt =====
-- encoder.go over a writer that keeps what it is given: what any series of calls leaves in it.
use rapidyenc.Base.{
  ℕ, true, none, some, [], ◌∷◌, ◌++◌, ◌≡◌, ◌≢◌, refl, Bytes, length, ltb, ltb-le, length-zero,
  append-nil, append_assoc, Bool-cases, Option-cases, inl, inr, ◌⊎◌, ret,
}
use rapidyenc.Decoder.{State, crlf}
use rapidyenc.Decoder.Automaton.{read}
use rapidyenc.Encoder.{get_last?}
use rapidyenc.Encoder.Reference.{slot_at, is_blank}
use rapidyenc.Encoder.RoundTrip.{state_at}
use rapidyenc.Encoder.Blanks.{front, escaped_end, front-last, get_last?-none}
use rapidyenc.Writer.{Sink, Encoder, send, write_end_byte, write_encoded}

-- A writer that appends, and does not fail.
abbrev pub memory : Sink
memory = record { W = Bytes; Failure = Unit {0}; write = λ w p. (w ++ p, none) }

-- How a byte that was kept back ends the text.
abbrev pub at_close : Bytes → Bytes
at_close [] = []
at_close (b ∷ r) = escaped_end b

-- The decoder's state behind the text of `src`.
abbrev pub behind : Bytes → State
behind [] = crlf
behind (c ∷ cs) = State.none

-- The writer holds `before` and, but for a byte that is kept back, a text that is read as `src`,
-- whether that byte is sent as it is or escaped.
pub record Holds (before src : Bytes) (e : Encoder Bytes) : Type 0 where
  pub text : Bytes
  pub sent : e.w ≡ some (before ++ text)
  pub kept : e.end_byte ≡ [] ⊎ (b : ℕ) × (e.end_byte ≡ b ∷ [])
  pub opens :
      (rest : Bytes) → read [] crlf (text ++ (e.end_byte ++ rest)) ≡ read src (behind src) rest
  pub closes :
      (rest : Bytes)
      → read [] crlf (text ++ (at_close e.end_byte ++ rest)) ≡ read src (behind src) rest
  pub slot : state_at (slot_at e.column) ≡ behind src

-- What a write leaves alone.
pub record Keeps (e e' : Encoder Bytes) : Type 0 where
  pub line : e'.line_length ≡ e.line_length
  pub raw : e'.raw ≡ e.raw
  pub header : e'.h_written ≡ e.h_written
  pub meta : e'.m ≡ e.m
  pub column : e'.column ≡ e.column
  pub crc : e'.crc ≡ e.crc
  pub processed : e'.processed ≡ e.processed

send-memory :
    (e : Encoder Bytes) (p w : Bytes)
    → e.w ≡ some w
    → send memory e p ≡ ret (record e { w = some (w ++ p) }, none)
send-memory e p w h = rw h refl

-- The byte that was kept back is sent as it is.
pub write_end_byte-Holds :
    (before src : Bytes) (e : Encoder Bytes)
    → Holds before src e
    → (e' : Encoder Bytes) × (write_end_byte memory e ≡ ret (e', none))
      × Holds before src e'
      × (e'.end_byte ≡ [])
      × Keeps e e'
unfolding write_end_byte
write_end_byte-Holds before src e v = elim v.kept [
  | inl nothing ↦ (
    e,
    rw nothing refl,
    v,
    nothing,
    record {
      line = refl;
      raw = refl;
      header = refl;
      meta = refl;
      column = refl;
      crc = refl;
      processed = refl;
    },
  )
  | inr (b, byte) ↦ (
    record e { w = some (before ++ (v.text ++ (b ∷ []))); end_byte = [] },
    rw (byte, v.sent, append_assoc) refl,
    record {
      text = v.text ++ (b ∷ []);
      sent = refl;
      kept = inl refl;
      opens = λ rest. rw append_assoc (rw byte at (v.opens rest));
      closes = λ rest. rw append_assoc (rw byte at (v.opens rest));
      slot = v.slot;
    },
    refl,
    record {
      line = refl;
      raw = refl;
      header = refl;
      meta = refl;
      column = refl;
      crc = refl;
      processed = refl;
    },
  )
]

kept_back :
    (before src text enc : Bytes) (b : ℕ) (e : Encoder Bytes)
    → e.w ≡ some (before ++ (text ++ front enc))
    → e.end_byte ≡ b ∷ []
    → state_at (slot_at e.column) ≡ behind src
    → get_last? enc ≡ some b
    → ((rest : Bytes) → read [] crlf (text ++ (enc ++ rest)) ≡ read src (behind src) rest)
    → ((rest : Bytes)
        → read [] crlf (text ++ (front enc ++ (escaped_end b ++ rest)))
          ≡ read src (behind src) rest)
    → Holds before src e
kept_back before src text enc b e sent byte slot last opens closes = record {
  text = text ++ front enc;
  sent = sent;
  kept = inr (b, byte);
  opens = λ rest.
      rw
        (
          byte,
          append_assoc text (front enc) (b ∷ rest),
          ← append_assoc (front enc) (b ∷ []) rest,
          front-last enc b last,
        )
        (opens rest);
  closes = λ rest. rw (byte, append_assoc text (front enc) (escaped_end b ++ rest)) (closes rest);
  slot = slot;
}

-- What was encoded is sent, but for a blank at its end, which is kept back.
pub write_encoded-Holds :
    (before src text enc : Bytes) (e : Encoder Bytes)
    → e.w ≡ some (before ++ text)
    → e.end_byte ≡ []
    → state_at (slot_at e.column) ≡ behind src
    → enc ≢ []
    → ((rest : Bytes) → read [] crlf (text ++ (enc ++ rest)) ≡ read src (behind src) rest)
    → ((b : ℕ)
        → get_last? enc ≡ some b
        → is_blank b ≡ true
        → (rest : Bytes)
        → read [] crlf (text ++ (front enc ++ (escaped_end b ++ rest)))
          ≡ read src (behind src) rest)
    → (e' : Encoder Bytes) × (write_encoded memory e enc (get_last? enc) ≡ ret (e', none))
      × Holds before src e'
      × Keeps e e'
unfolding write_encoded
write_encoded-Holds before src text enc e sent none_kept slot some_enc opens closes =
    elim (Option-cases (get_last? enc)) [
      | inl no_last ↦ absurd (some_enc (get_last?-none enc no_last))
      | inr (b, last) ↦ elim (Bool-cases (is_blank b)) [
        | inr plain ↦ (
          record e { w = some (before ++ (text ++ enc)) },
          rw (last, plain, sent, append_assoc) refl,
          record {
            text = text ++ enc;
            sent = refl;
            kept = inl none_kept;
            opens = λ rest. rw (none_kept, append_assoc) (opens rest);
            closes = λ rest. rw (none_kept, append_assoc) (opens rest);
            slot = slot;
          },
          record {
            line = refl;
            raw = refl;
            header = refl;
            meta = refl;
            column = refl;
            crc = refl;
            processed = refl;
          },
        )
        | inl blank ↦ elim (Bool-cases (ltb 0 (length (front enc)))) [
          | inl more ↦ (
            record e { w = some (before ++ (text ++ front enc)); end_byte = b ∷ [] },
            rw (last, blank, none_kept, more, sent, append_assoc) refl,
            kept_back before src text enc b _ refl refl slot last opens (closes b last blank),
            record {
              line = refl;
              raw = refl;
              header = refl;
              meta = refl;
              column = refl;
              crc = refl;
              processed = refl;
            },
          )
          | inr nothing ↦ (
            record e { end_byte = b ∷ [] },
            rw (last, blank, none_kept, nothing) refl,
            kept_back before src text enc b _
                (rw (length-zero (front enc) (ltb-le 0 _ nothing), append-nil) sent) refl slot last
                opens (closes b last blank),
            record {
              line = refl;
              raw = refl;
              header = refl;
              meta = refl;
              column = refl;
              crc = refl;
              processed = refl;
            },
          )
        ]
      ]
    ]
