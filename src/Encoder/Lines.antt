-- ===== src/Encoder/Lines.antt =====
-- The shape of the encoded text: what stands in a line, how long a line is, how it starts and ends.
use rapidyenc.Base.{
  ℕ, ◌+◌, ◌≤◌, ◌<◌, Bool, true, false, not, ◌&&◌, ◌||◌, Option, none, some, [], ◌∷◌, ◌++◌, ◌≡◌, ◌≢◌,
  refl, sym, ◌∙◌, arith, Bytes, IsByte, length, ltb, leb, ◌==◌, if◌then◌else◌, ret, Bool-cases, inl,
  inr,
}
use rapidyenc.Encoder.{encode_generic}
use rapidyenc.Encoder.Reference.{
  shifted, Slot, start, within, full, is_blank, mid_code, first_code, last_code, encoding,
}
use rapidyenc.Encoder.Refine.{IsBytes, encode_generic-encoding, ret-output}

-- A reader of the text that checks it: at the start of a line, behind `k` bytes of a line of which
-- the last is a blank or not, or between CR and LF.
pub data Place : Type 0 where
  line_start after_cr : Place
  in_line : ℕ → Bool → Place

module _ (line : ℕ) where
  -- No NUL, no CR or LF but in pairs, no line with more than `line + 1` bytes, none that is empty or
  -- starts with a dot, and none that is broken behind a blank.
  abbrev pub check : Place → ℕ → Option Place
  check line_start b =
      if b == 0 || b == b'\r' || b == b'\n' || b == b'.'
      then none
      else some (in_line 1 (is_blank b))
  check after_cr b = if b == b'\n' then some line_start else none
  check (in_line k blank) b =
      if b == b'\r'
      then (if leb k (line + 1) && not blank then some after_cr else none)
      else if b == 0 || b == b'\n'
      then none
      else some (in_line (k + 1) (is_blank b))

  abbrev pub check_end : Place → Bool
  check_end (in_line k blank) = leb k (line + 1)
  check_end p = false

  unfoldable pub is_wrapped : Place → Bytes → Bool
  is_wrapped p [] = check_end p
  is_wrapped p (b ∷ r) = elim (check p b) [ none ↦ false | some q ↦ is_wrapped q r ]

  wrapped_first :
      (c : ℕ) (r : Bytes)
      → IsByte c
      → is_wrapped line_start (first_code c ++ r)
        ≡ is_wrapped (in_line (length (first_code c)) false) r
  unfolding is_wrapped
  wrapped_first c r b = ground arith

  wrapped_mid :
      (k : ℕ) (blank : Bool) (c : ℕ) (r : Bytes)
      → IsByte c
      → is_wrapped (in_line k blank) (mid_code c ++ r)
        ≡ is_wrapped (in_line (k + length (mid_code c)) (is_blank (shifted c))) r
  unfolding is_wrapped
  wrapped_mid k blank c r b = ground arith

  wrapped_last :
      (k : ℕ) (blank : Bool) (c : ℕ) (r : Bytes)
      → IsByte c
      → is_wrapped (in_line k blank) (last_code c ++ r)
        ≡ is_wrapped (in_line (k + length (last_code c)) false) r
  unfolding is_wrapped
  wrapped_last k blank c r b = ground arith

  wrapped_break :
      (k : ℕ) (r : Bytes)
      → k ≤ line + 1
      → is_wrapped (in_line k false) (b'\r' ∷ b'\n' ∷ r) ≡ is_wrapped line_start r
  unfolding is_wrapped
  wrapped_break k r h = ground arith

  -- Where a call at `s` and `col` stands in the text.
  abbrev Agrees : Slot → ℕ → ℕ → Bool → Type 0
  Agrees start col k blank = ⊥
  Agrees within col k blank = (k ≡ col) × (col ≤ line + 1) × (blank ≡ true → col < line)
  Agrees full col k blank = (k ≤ line + 1) × (blank ≡ false)

  is_wrapped-encoding :
      (s : Slot) (col k : ℕ) (blank : Bool) (cs : Bytes)
      → 1 ≤ line
      → IsBytes cs
      → Agrees s col k blank
      → is_wrapped (in_line k blank) (encoding line s col cs) ≡ true
  unfolding encoding
  is_wrapped-encoding start col k blank cs h b a = elim a [ ]
  is_wrapped-encoding within col k blank [] h b a = unfold is_wrapped in ground arith
  is_wrapped-encoding full col k blank [] h b a = unfold is_wrapped in ground arith
  is_wrapped-encoding within col k blank (c ∷ cs) h (b, bs) (p, q, r) =
      elim (Bool-cases (ltb (col + 1) line)) [
        | inl inside ↦
            rw (inside, wrapped_mid k blank c _ b)
              (is_wrapped-encoding within (col + length (mid_code c)) _ _ cs h bs (ground arith))
        | inr over ↦ rw over (elim (Bool-cases (ltb col line)) [
          | inl last ↦
              rw (last, wrapped_last k blank c _ b)
                (is_wrapped-encoding full col _ false cs h bs (ground arith))
          | inr none_left ↦
              let e : blank ≡ false = ground arith in
              rw (none_left, e, wrapped_break k _ (omega arith), wrapped_first c _ b)
                (is_wrapped-encoding within (length (first_code c)) _ false cs h bs (ground arith))
        ])
      ]
  is_wrapped-encoding full col k blank (c ∷ cs) h (b, bs) (p, q) =
      rw (q, wrapped_break k _ p, wrapped_first c _ b)
        (is_wrapped-encoding within (length (first_code c)) _ false cs h bs (ground arith))

-- One call of `encodeGeneric` at column 0, for a line length of at least 1, writes well-formed lines:
-- no NUL, CR and LF only together and between two lines that are not empty, no line with more than
-- one byte above the line length, none that starts with a dot and none that is broken behind a blank.
pub encode_generic-is_wrapped :
    (line : ℕ) (src enc : Bytes) (col : ℕ)
    → 1 ≤ line
    → src ≢ []
    → IsBytes src
    → encode_generic line 0 src false ≡ ret (col, enc)
    → is_wrapped line line_start enc ≡ true
unfolding encoding
encode_generic-is_wrapped line [] enc col h ne b e = absurd (ne refl)
encode_generic-is_wrapped line (c ∷ cs) enc col h ne b e =
    rw
      (
        ret-output (sym e ∙ encode_generic-encoding line 0 (c ∷ cs) ne b),
        wrapped_first line c _ b.0,
      )
      (is_wrapped-encoding line within (length (first_code c)) _ false cs h b.1 (ground arith))
