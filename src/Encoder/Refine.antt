-- ===== src/Encoder/Refine.antt =====
-- The loops of `encodeGeneric`, with their batches of eight bytes that may be taken back, write what
-- the reference writes byte by byte.
use rapidyenc.Base.{
  ℕ, zero, suc, ◌+◌, ◌≤◌, ◌<◌, false, inl, inr, Option, none, some, [], ◌∷◌, ◌++◌, ◌≡◌, ◌≢◌, ◌⊎◌,
  refl, sym, ap, ◌∙◌, arith, Bytes, IsByte, All, length, length-append, All-append_inv,
  append_assoc, append-nil, take-length-append, ltb, leb, ◌==◌, if◌then◌else◌, Bool-cases, Outcome,
  ret,
}
use rapidyenc.Encoder.{
  escaped, mid_char, first_char, last_char, line_char, mid_chars, Encoding, Turn, ended, more,
  turn_at, then_more, batches, roll_back, mid_loop, break_line, finish_line, round, rounds,
  encode_loop, encode_generic,
}
use rapidyenc.Encoder.Reference.{
  Slot, start, within, full, mid_code, first_code, last_code, encoding, end_col, slot_at,
}
use rapidyenc.Encoder.Tables.{
  mid_char-mid_code, first_char-first_code, last_char-last_code, line_char-first_code,
  escaped-first_code,
}

abbrev pub IsBytes : Bytes → Type 0
IsBytes = All IsByte

pub ret-output :
    {c c' : ℕ} {o o' : Bytes} → ◌≡◌ {A = Outcome (ℕ × Bytes)} (ret (c, o)) (ret (c', o')) → o ≡ o'
ret-output h = cc

module _ (line : ℕ) where
  -- What a call comes to from a point inside it.
  abbrev pub total : Slot → Bytes → ℕ → Bytes → ℕ × Bytes
  total s src col out = (end_col line s col src, out ++ encoding line s col src)

  total_mid :
      (c : ℕ) (r : Bytes) (col : ℕ) (out : Bytes)
      → IsByte c
      → col + 1 < line
      → total within (c ∷ r) col out
        ≡ total within r (col + length (mid_char c)) (out ++ mid_char c)
  unfolding encoding end_col
  total_mid c r col out b h = rw (mid_char-mid_code c b) (
      ground
        (arith, append_assoc out (mid_code c) (encoding line within (col + length (mid_code c)) r)))

  total_last :
      (c : ℕ) (r : Bytes) (col : ℕ) (out : Bytes)
      → IsByte c
      → line ≤ col + 1
      → col < line
      → total within (c ∷ r) col out ≡ total full r col (out ++ last_char c)
  unfolding encoding end_col
  total_last c r col out b h k =
      rw (last_char-last_code c b)
        (ground (arith, append_assoc out (last_code c) (encoding line full col r)))

  total_break :
      (s : Slot) (c : ℕ) (r : Bytes) (col : ℕ) (out : Bytes)
      → IsByte c
      → (s ≡ full) ⊎ (s ≡ within) × (line ≤ col)
      → total s (c ∷ r) col out
        ≡ total within r (if escaped c == 0 then 1 else 2) (out ++ line_char c)
  unfolding encoding end_col
  total_break s c r col out b h =
      rw (line_char-first_code c b, escaped-first_code c b)
        (ground (
          arith,
          append_assoc out (b'\r' ∷ b'\n' ∷ first_code c)
              (encoding line within (length (first_code c)) r),
        ))

  total_eq :
      (r : Bytes) {col col' : ℕ} {out out' : Bytes}
      → col ≡ col'
      → out ≡ out'
      → total within r col out ≡ total within r col' out'
  total_eq r p q = λ i. total within r (p i) (q i)

  total_first :
      (c : ℕ) (r : Bytes)
      → IsByte c
      → total within r (if escaped c == 0 then 1 else 2) (first_char c) ≡ total start (c ∷ r) 0 []
  unfolding encoding end_col
  total_first c r b = rw (first_char-first_code c b, escaped-first_code c b)

  total_mids :
      (cs r : Bytes) (col : ℕ) (out : Bytes)
      → IsBytes cs
      → col + length (mid_chars cs) + 1 < line
      → total within (cs ++ r) col out
        ≡ total within r (col + length (mid_chars cs)) (out ++ mid_chars cs)
  total_mids [] r col out b h = rw append-nil (ap (λ k. total within r k out) (omega arith))
  total_mids (c ∷ cs) r col out (b, bs) h =
      let w = mid_char c in
      let split : length (w ++ mid_chars cs) ≡ length w + length (mid_chars cs) =
        length-append w (mid_chars cs) in
      total_mid c (cs ++ r) col out b (omega (arith, split))
      ∙ total_mids cs r (col + length w) (out ++ w) bs (omega (arith, split))
      ∙ total_eq r (omega (arith, split)) (append_assoc out w (mid_chars cs))

  -- Inside a call whose outcome is `v`, with at most `n` bytes to read.
  record At (v : ℕ × Bytes) (n : ℕ) (e : Encoding) : Type 0 where
    bytes : IsBytes e.rest
    fits : length e.rest ≤ n
    value : total within e.rest e.col e.out ≡ v

  -- Behind a batch: what holds before it, and, where the line is not over, behind it as well.
  abbrev After : ℕ × Bytes → ℕ → Encoding → Option Encoding → Type 0
  After v n e none = At v n e
  After v n e (some before) =
      At v n before
      × (e.col + 1 < line → At v n e)
      × (w : Bytes) × (e.out ≡ before.out ++ w)
      × (e.col ≡ before.col + length w)

  After-now :
      (v : ℕ × Bytes) (n : ℕ) (e : Encoding) (sp : Option Encoding)
      → After v n e sp
      → e.col + 1 < line
      → At v n e
  After-now v n e none h _ = h
  After-now v n e (some before) h inside = h.1 inside

  roll_back-At :
      (v : ℕ × Bytes) (n : ℕ) (e : Encoding) (sp : Option Encoding)
      → After v n e sp
      → At v n (roll_back line (e, sp))
  unfolding roll_back
  roll_back-At v n e none h = h
  roll_back-At v n e (some before) (h, k, w, p, q) = elim (Bool-cases (leb line (e.col + 1))) [
    | inl over ↦ rw over (record {
      bytes = h.bytes;
      fits = h.fits;
      value =
          total_eq before.rest (omega (arith, q, ap length p, length-append before.out w))
            (rw p (take-length-append before.out w))
          ∙ h.value;
    })
    | inr inside ↦ rw inside (k (ground arith))
  ]

  batches-At :
      (v : ℕ × Bytes) (n : ℕ) (src : Bytes) (col : ℕ) (out : Bytes) (sp : Option Encoding)
      → After v n (record { rest = src; col = col; out = out }) sp
      → At v n (roll_back line (batches line src col out sp))
  unfolding batches
  batches-At v n (c0 ∷ c1 ∷ c2 ∷ c3 ∷ c4 ∷ c5 ∷ c6 ∷ c7 ∷ c8 ∷ r) col out sp h =
      elim (Bool-cases (ltb (col + 9) line)) [
        | inl go ↦ rw go (
            let cs = c0 ∷ c1 ∷ c2 ∷ c3 ∷ c4 ∷ c5 ∷ c6 ∷ c7 ∷ [] in
            let now = After-now v n _ sp h (ground arith) in
            let (b, bs) = All-append_inv IsByte cs (c8 ∷ r) now.bytes in
            batches-At v n (c8 ∷ r) _ _ _ (
              now,
              (λ inside. record {
                bytes = bs;
                fits = omega (arith, now.fits);
                value = sym (total_mids cs (c8 ∷ r) col out b inside) ∙ now.value;
              }),
              mid_chars cs,
              refl,
              refl,
            ))
        | inr stop ↦ rw stop (roll_back-At v n _ sp h)
      ]
  batches-At v n src col out sp h = roll_back-At v n _ sp h

  -- What a turn has still to do, with `n` bytes more at the most.
  abbrev Good : ℕ × Bytes → ℕ → Turn → Type 0
  Good v n (ended col out) = (col, out) ≡ v
  Good v n (more c r col out) = At v n (record { rest = c ∷ r; col = col; out = out })

  -- The same, where the line has no room inside.
  abbrev Over : ℕ × Bytes → ℕ → Turn → Type 0
  Over v n (ended col out) = (col, out) ≡ v
  Over v n (more c r col out) =
      At v n (record { rest = c ∷ r; col = col; out = out }) × (line ≤ col + 1)

  Good-turn_at :
      (v : ℕ × Bytes) (n : ℕ) (r : Bytes) (col : ℕ) (out : Bytes)
      → IsBytes r
      → length r ≤ n
      → total within r col out ≡ v
      → Good v n (turn_at r col out)
  unfolding encoding end_col
  Good-turn_at v n [] col out b h e = rw append-nil at e
  Good-turn_at v n (c ∷ r) col out b h e = record { bytes = b; fits = h; value = e }

  Over-mid_loop :
      (v : ℕ × Bytes) (n : ℕ) (c : ℕ) (r : Bytes) (col : ℕ) (out : Bytes)
      → At v n (record { rest = c ∷ r; col = col; out = out })
      → Over v n (mid_loop line c r col out)
  unfolding mid_loop
  Over-mid_loop v n c [] col out h = elim (Bool-cases (ltb (col + 1) line)) [
    | inl inside ↦ rw inside (
        Good-turn_at v n [] _ _ tt (omega arith)
          (sym (total_mid c [] col out h.bytes.0 (ground arith)) ∙ h.value))
    | inr over ↦ rw over (h, ground arith)
  ]
  Over-mid_loop v n c (d ∷ r) col out h = elim (Bool-cases (ltb (col + 1) line)) [
    | inl inside ↦ rw inside (
        Over-mid_loop v n d r _ _ (record {
          bytes = h.bytes.1;
          fits = omega (arith, h.fits);
          value = sym (total_mid c (d ∷ r) col out h.bytes.0 (ground arith)) ∙ h.value;
        }))
    | inr over ↦ rw over (h, ground arith)
  ]

  Good-break_line :
      (v : ℕ × Bytes) (n : ℕ) (s : Slot) (c : ℕ) (r : Bytes) (col : ℕ) (out : Bytes)
      → (s ≡ full) ⊎ (s ≡ within) × (line ≤ col)
      → IsBytes (c ∷ r)
      → length r ≤ n
      → total s (c ∷ r) col out ≡ v
      → Good v n (break_line line c r col out)
  unfolding break_line
  Good-break_line v n s c r col out slot (b, bs) h e =
      Good-turn_at v n r _ _ bs h (sym (total_break s c r col out b slot) ∙ e)

  Good-last :
      (v : ℕ × Bytes) (n : ℕ) (c : ℕ) (r : Bytes) (col : ℕ) (out : Bytes)
      → At v (suc n) (record { rest = c ∷ r; col = col; out = out })
      → line ≤ col + 1
      → col < line
      → Good v n (then_more (break_line line) (turn_at r col (out ++ last_char c)))
  unfolding encoding end_col
  Good-last v n c [] col out h over inside =
      rw append-nil at (sym (total_last c [] col out h.bytes.0 over inside) ∙ h.value)
  Good-last v n c (d ∷ s) col out h over inside =
      Good-break_line v n full d s col _ (inl refl) h.bytes.1 (omega (arith, h.fits))
        (sym (total_last c (d ∷ s) col out h.bytes.0 over inside) ∙ h.value)

  Good-finish_line :
      (v : ℕ × Bytes) (n : ℕ) (c : ℕ) (r : Bytes) (col : ℕ) (out : Bytes)
      → Over v (suc n) (more c r col out)
      → Good v n (finish_line line c r col out)
  unfolding finish_line
  Good-finish_line v n c r col out (h, over) = elim (Bool-cases (ltb col line)) [
    | inl last ↦ rw last (Good-last v n c r col out h over (ground arith))
    | inr none_left ↦ rw none_left (
        Good-break_line v n within c r col out (inr (refl, ground arith)) h.bytes
          (omega (arith, h.fits)) h.value)
  ]

  Over-then_more :
      (v : ℕ × Bytes) (n : ℕ) (t : Turn) → Good v n t → Over v n (then_more (mid_loop line) t)
  Over-then_more v n (ended col out) g = g
  Over-then_more v n (more c r col out) g = Over-mid_loop v n c r col out g

  Good-then_more :
      (v : ℕ × Bytes) (n : ℕ) (t : Turn)
      → Over v (suc n) t
      → Good v n (then_more (finish_line line) t)
  Good-then_more v n (ended col out) g = g
  Good-then_more v n (more c r col out) g = Good-finish_line v n c r col out g

  Good-round :
      (v : ℕ × Bytes) (n c : ℕ) (r : Bytes) (col : ℕ) (out : Bytes)
      → Good v (suc n) (more c r col out)
      → Good v n (round line c r col out)
  unfolding round
  Good-round v n c r col out g =
      let e = batches-At v (suc n) (c ∷ r) col out none g in
      Good-then_more v n _
        (Over-then_more v (suc n) _ (Good-turn_at v (suc n) _ _ _ e.bytes e.fits e.value))

  rounds-Good : (v : ℕ × Bytes) (n : ℕ) (t : Turn) → Good v n t → rounds line n t ≡ ret v
  unfolding rounds
  rounds-Good v zero (ended col out) g = ap ret g
  rounds-Good v zero (more c r col out) g = absurd (omega (arith, g.fits))
  rounds-Good v (suc n) (ended col out) g = ap ret g
  rounds-Good v (suc n) (more c r col out) g = rounds-Good v n _ (Good-round v n c r col out g)

  pub encode_loop-encoding :
      (col : ℕ) (src : Bytes)
      → src ≢ []
      → IsBytes src
      → encode_loop line col src
        ≡ ret (end_col line (slot_at col) col src, encoding line (slot_at col) col src)
  unfolding encode_loop
  encode_loop-encoding col [] ne b = absurd (ne refl)
  encode_loop-encoding zero (c ∷ r) ne b =
      rounds-Good _ (length r) _
        (Good-turn_at _ (length r) r _ _ b.1 (omega arith) (total_first c r b.0))
  encode_loop-encoding (suc col) src ne b =
      rounds-Good _ (length src) _
        (Good-turn_at _ (length src) src (suc col) [] b (omega arith) refl)

-- From every column and for every line length, `encodeGeneric` without `doEnd` returns on one byte or
-- more: its loops end and read inside `src`, it writes what the reference encoding writes byte by
-- byte, and keeps its column. Batches that are taken back make no difference.
pub encode_generic-encoding :
    (line col : ℕ) (src : Bytes)
    → src ≢ []
    → IsBytes src
    → encode_generic line col src false
      ≡ ret (end_col line (slot_at col) col src, encoding line (slot_at col) col src)
unfolding encode_generic
encode_generic-encoding line col src ne b = rw (encode_loop-encoding line col src ne b)
