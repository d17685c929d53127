-- ===== src/Encoder/Reference.antt =====
-- An independent description of yEnc encoding, one byte at a time.
use rapidyenc.Base.{
  ℕ, zero, suc, ◌+◌, ◌%◌, Bool, [], ◌∷◌, ◌++◌, ◌||◌, Bytes, length, ltb, ◌==◌, if◌then◌else◌,
}

-- Where the next byte goes: at the start of a call at column 0, inside a line or in its last column,
-- or on a new line since the last column is taken.
pub data Slot : Type 0 where
  start within full : Slot

-- The encoded value, and whether it is NUL, CR, LF or '='.
abbrev pub shifted : ℕ → ℕ
shifted c = (c + 42) % 256

abbrev pub is_critical : ℕ → Bool
is_critical b = b == 0 || b == b'\r' || b == b'\n' || b == b'='

abbrev pub is_blank : ℕ → Bool
is_blank b = b == b'\t' || b == b' '

abbrev pub coded : Bool → ℕ → Bytes
coded escape c = if escape then b'=' ∷ (shifted c + 64) % 256 ∷ [] else shifted c ∷ []

-- Blanks are escaped at both ends of a line, and a dot at its start.
abbrev pub mid_code : ℕ → Bytes
mid_code c = coded (is_critical (shifted c)) c

abbrev pub first_code : ℕ → Bytes
first_code c = coded (is_critical (shifted c) || is_blank (shifted c) || shifted c == b'.') c

abbrev pub last_code : ℕ → Bytes
last_code c = coded (is_critical (shifted c) || is_blank (shifted c)) c

module _ (line : ℕ) where
  abbrev pub code : Slot → ℕ → ℕ → Bytes
  code start col c = first_code c
  code within col c =
      if ltb (col + 1) line
      then mid_code c
      else if ltb col line
      then last_code c
      else b'\r' ∷ b'\n' ∷ first_code c
  code full col c = b'\r' ∷ b'\n' ∷ first_code c

  abbrev pub next_slot : Slot → ℕ → Slot
  next_slot within col =
      if ltb (col + 1) line then within else if ltb col line then full else within
  next_slot s col = within

  -- The column that is kept does not count the byte in the last column.
  abbrev pub next_col : Slot → ℕ → ℕ → ℕ
  next_col within col c =
      if ltb (col + 1) line
      then col + length (mid_code c)
      else if ltb col line
      then col
      else length (first_code c)
  next_col s col c = length (first_code c)

  unfoldable pub encoding : Slot → ℕ → Bytes → Bytes
  encoding s col [] = []
  encoding s col (c ∷ cs) = code s col c ++ encoding (next_slot s col) (next_col s col c) cs

  unfoldable pub end_col : Slot → ℕ → Bytes → ℕ
  end_col s col [] = col
  end_col s col (c ∷ cs) = end_col (next_slot s col) (next_col s col c) cs

-- A call at column 0 is at the start of a line.
abbrev pub slot_at : ℕ → Slot
slot_at zero = start
slot_at (suc col) = within
