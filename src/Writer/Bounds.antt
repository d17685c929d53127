-- ===== src/Writer/Bounds.antt =====
-- encoder.go, `maxLength`: the buffer that `Encoder.Write` keeps is long enough for what it encodes.
use native.Mathlib.Nat.{le-div_iff_mul-le}
use rapidyenc.Base.{
  ℕ, zero, suc, ◌+◌, ◌-◌, ◌*◌, ◌/◌, ◌^◌, ◌≤◌, false, [], ◌∷◌, ◌≡◌, ◌≢◌, refl, sym, ◌∙◌, arith,
  Bytes, length, length-append, ltb, ◌==◌, if◌then◌else◌, ret, Bool-cases, inl, inr,
}
use rapidyenc.Encoder.{encode_generic}
use rapidyenc.Writer.{max_length}
use rapidyenc.Encoder.Reference.{
  Slot, start, within, full, code, next_slot, next_col, encoding, slot_at,
}
use rapidyenc.Encoder.Refine.{IsBytes, encode_generic-encoding, ret-output}

module _ (line : ℕ) where
  -- The line ends of an encoding.
  abbrev breaks_of : Slot → ℕ → ℕ
  breaks_of start col = 0
  breaks_of full col = 1
  breaks_of within col = if ltb (col + 1) line then 0 else if ltb col line then 0 else 1

  breaks : Slot → ℕ → Bytes → ℕ
  breaks s col [] = 0
  breaks s col (c ∷ cs) = breaks_of s col + breaks (next_slot line s col) (next_col line s col c) cs

  -- What the line holds at the most before the next byte.
  abbrev held : Slot → ℕ → ℕ
  held start col = 0
  held within col = col
  held full col = line

  length-code : (s : Slot) (col c : ℕ) → length (code line s col c) ≤ 2 + 2 * breaks_of s col
  length-code start col c = ground arith
  length-code full col c = ground arith
  length-code within col c = ground arith

  length-encoding :
      (s : Slot) (col : ℕ) (cs : Bytes)
      → length (encoding line s col cs) ≤ 2 * length cs + 2 * breaks s col cs
  unfolding encoding breaks
  length-encoding s col [] = omega arith
  length-encoding s col (c ∷ cs) =
      let later = encoding line (next_slot line s col) (next_col line s col c) cs in
      omega (
        arith,
        length-append (code line s col c) later,
        length-code s col c,
        length-encoding (next_slot line s col) (next_col line s col c) cs,
      )

  held_step :
      (s : Slot) (col c : ℕ)
      → breaks_of s col * line + held (next_slot line s col) (next_col line s col c)
        ≤ 2 + held s col
  held_step start col c = ground arith
  held_step full col c = ground arith
  held_step within col c = ground arith

  breaks-mul-le :
      (s : Slot) (col : ℕ) (cs : Bytes) → breaks s col cs * line ≤ 2 * length cs + held s col
  unfolding breaks
  breaks-mul-le s col [] = omega arith
  breaks-mul-le s col (c ∷ cs) =
      omega
        (arith, held_step s col c, breaks-mul-le (next_slot line s col) (next_col line s col c) cs)

  held-slot_at : (col : ℕ) → held (slot_at col) col ≡ col
  held-slot_at zero = refl
  held-slot_at (suc col) = refl

  drop_one : (b n : ℕ) → b * line ≤ n + line → (b - 1) * line ≤ n
  drop_one zero n h = omega arith
  drop_one (suc b) n h = let e : suc b - 1 ≡ b = omega arith in rw e (omega arith)

  breaks-le :
      (col : ℕ) (cs : Bytes)
      → 1 ≤ line
      → col ≤ line
      → breaks (slot_at col) col cs ≤ length cs * 2 / line + 1
  breaks-le col cs h k = omega (
    arith,
    (le-div_iff_mul-le {k = line} {x = breaks (slot_at col) col cs - 1} {y = length cs * 2} h).1 (
        drop_one (breaks (slot_at col) col cs) (length cs * 2)
          (omega (arith, breaks-mul-le (slot_at col) col cs, held-slot_at col))),
  )

  length-encoding-le :
      (col : ℕ) (cs : Bytes)
      → 1 ≤ line
      → col ≤ line
      → length (encoding line (slot_at col) col cs) ≤ 2 * length cs + 2 * (length cs * 2 / line + 1)
  length-encoding-le col cs h k =
      omega (arith, length-encoding (slot_at col) col cs, breaks-le col cs h k)

  -- The two ways to count the lines agree at the usual line length.
  max_length_bound :
      (n most : ℕ)
      → 1 ≤ line
      → most ≤ 2 * n + 2 * (n * 2 / line + 1)
      → (size : ℕ) × (max_length n line ≡ ret size) × (most + 64 ≤ size)
  unfolding max_length
  max_length_bound n most h k = elim (Bool-cases (line == 128)) [
    | inl common ↦ (
      n * 2 + 2 + 64 + 2 * (n / 2 ^ 6),
      rw common,
      (let e : line ≡ 128 = ground arith in omega (arith, rw e at k)),
    )
    | inr other ↦ (n * 2 + 2 + 64 + 2 * (n * 2 / line), ground arith, omega arith)
  ]

-- For a line length of at least 1 and a column up to it, `maxLength` returns, and one call of
-- `encodeGeneric` writes at least 64 bytes less than it says: the buffer of `Write` is long enough.
pub encode_generic-max_length :
    (line col : ℕ) (src enc : Bytes) (col' : ℕ)
    → 1 ≤ line
    → col ≤ line
    → src ≢ []
    → IsBytes src
    → encode_generic line col src false ≡ ret (col', enc)
    → (n : ℕ) × (max_length (length src) line ≡ ret n) × (length enc + 64 ≤ n)
encode_generic-max_length line col src enc col' h k ne b e =
    let same = ret-output (sym e ∙ encode_generic-encoding line col src ne b) in
    max_length_bound line (length src) (length enc) h
      (rw same (length-encoding-le line col src h k))
