-- ===== src/Simd/Encode/Refine.antt =====
-- `encodeSIMD` writes what `encodeGeneric` writes, for any kernel that encodes what it takes.
use rapidyenc.Base.{
  ℕ, zero, suc, ◌||◌, ◌==◌, ◌≤◌, ◌+◌, ◌-◌, Bool, true, false, Option, [], ◌∷◌, ◌++◌, ◌≡◌, refl, sym,
  ap, ◌∙◌, ◌≢◌, arith, if◌then◌else◌, Bytes, length, take, drop, length-append, length-drop,
  append_assoc, append-nil, drop-all, Outcome, ret, ◌>>=◌, Bool-cases, Option-cases, inl, inr, ltb,
  leb, leb→le, leb-lt, ltb-le,
}
use rapidyenc.Base.Int.{ℤ}
use rapidyenc.Encoder.{get_last?, escape_at, escape_last, encode_generic}
use rapidyenc.Encoder.Reference.{Slot, slot_at, encoding, end_col}
use rapidyenc.Encoder.Refine.{IsBytes, encode_loop-encoding}
use rapidyenc.Encoder.Blanks.{get_last?-append, get_last?-none, encoding-some}
use rapidyenc.Simd.Encode.{
  Encoded, Kernel, start_column, store, escape_tail, behind_kernel, encode_from, encode_simd,
}

module _ (line : ℕ) where
  -- What a kernel returns at column `col`: the part of the encoding that belongs to the bytes that it
  -- took, and the column from which the rest of it goes on.
  pub record IsEncoded (col : ℕ) (src : Bytes) (k : Encoded) : Type 0 where
    pub inside : k.consumed ≤ length src
    pub writes :
        k.written ++ encoding line (slot_at k.column) k.column (drop k.consumed src)
        ≡ encoding line (slot_at col) col src
    pub keeps :
        end_col line (slot_at k.column) k.column (drop k.consumed src)
        ≡ end_col line (slot_at col) col src

  -- A kernel that encodes what it takes of twelve bytes or more.
  abbrev pub IsKernel : Kernel → Type 0
  IsKernel kernel =
      (col : ℕ) (src : Bytes)
      → 12 ≤ length src
      → IsBytes src
      → (k : Encoded) × (kernel line col src ≡ ret k) × IsEncoded col src k

-- What `doEnd` makes of the loops' result.
abbrev end_with : Bool → ℕ × Bytes → Outcome (ℕ × Bytes)
end_with do_end r = if do_end then escape_last r else ret r

encode_generic-end_with :
    (line col : ℕ) (src : Bytes) (do_end : Bool)
    → src ≢ []
    → IsBytes src
    → encode_generic line col src do_end
      ≡ end_with do_end (end_col line (slot_at col) col src, encoding line (slot_at col) col src)
unfolding encode_generic
encode_generic-end_with line col src do_end ne b = rw (encode_loop-encoding line col src ne b) refl

take-append : (w out : Bytes) (n : ℕ) → take (length w + n) (w ++ out) ≡ w ++ take n out
take-append [] out n = let e : 0 + n ≡ n = omega arith in rw e refl
take-append (x ∷ w) out n =
    let e : suc (length w) + n ≡ suc (length w + n) = omega arith in
    rw e (ap (λ r. x ∷ r) (take-append w out n))

last_index : (w out : Bytes) → out ≢ [] → length (w ++ out) - 1 ≡ length w + (length out - 1)
last_index w [] ne = absurd (ne refl)
last_index w (x ∷ out) ne = omega (arith, length-append w (x ∷ out))

abbrev behind_written : Bytes → ℕ × Bytes → ℕ × Bytes
behind_written w r = (r.0, w ++ r.1)

escape_last-append :
    (col : ℕ) (w out : Bytes)
    → out ≢ []
    → escape_last (col, w ++ out) ≡ (escape_last (col, out) >>= λ r. ret (behind_written w r))
unfolding escape_last escape_at
escape_last-append col w out ne = elim (Option-cases (get_last? out)) [
  | inl no_last ↦ absurd (ne (get_last?-none out no_last))
  | inr (b, last) ↦
      rw (get_last?-append w out ne, last)
        (elim (Bool-cases (b == b'\t' || b == b' ')) [
          | inl blank ↦ rw blank (
              ap (λ r. ret (col + 1, r))
                (rw (last_index w out ne, take-append w out (length out - 1)) (append_assoc w _ _)))
          | inr plain ↦ rw plain refl
        ])
]

escape_tail-escape_last :
    (col : ℕ) (out : Bytes)
    → out ≢ []
    → ret (escape_tail col out (get_last? out)) ≡ escape_last (col, out)
unfolding escape_tail escape_last escape_at
escape_tail-escape_last col out ne = elim (Option-cases (get_last? out)) [
  | inl no_last ↦ absurd (ne (get_last?-none out no_last))
  | inr (b, last) ↦ rw last (elim (Bool-cases (b == b'\t' || b == b' ')) [
    | inl blank ↦ rw blank refl
    | inr plain ↦ rw plain refl
  ])
]

end_with-append :
    (do_end : Bool) (col : ℕ) (w out : Bytes)
    → out ≢ []
    → end_with do_end (col, w ++ out)
      ≡ (end_with do_end (col, out) >>= λ r. ret (behind_written w r))
unfolding end_with
end_with-append true col w out ne = escape_last-append col w out ne
end_with-append false col w out ne = refl

end_with-escape_tail :
    (do_end : Bool) (col : ℕ) (out : Bytes)
    → out ≢ []
    → ret (if do_end then escape_tail col out (get_last? out) else (col, out))
      ≡ end_with do_end (col, out)
unfolding end_with
end_with-escape_tail true col out ne = escape_tail-escape_last col out ne
end_with-escape_tail false col out ne = refl

IsBytes-drop : (n : ℕ) (xs : Bytes) → IsBytes xs → IsBytes (drop n xs)
IsBytes-drop zero xs b = b
IsBytes-drop (suc n) [] b = b
IsBytes-drop (suc n) (x ∷ xs) b = IsBytes-drop n xs b.1

encoding-ne :
    (line : ℕ) (s : Slot) (col : ℕ) (src : Bytes) → src ≢ [] → encoding line s col src ≢ []
encoding-ne line s col [] ne = absurd (ne refl)
encoding-ne line s col (c ∷ cs) ne = encoding-some line s col c cs

module _ (kernel : Kernel) (line : ℕ) (is_kernel : IsKernel line kernel) (do_end : Bool) where
  behind_kernel-end_with :
      (col : ℕ) (src : Bytes) (k : Encoded)
      → src ≢ []
      → IsBytes src
      → IsEncoded line col src k
      → behind_kernel kernel line src do_end k
        ≡ end_with do_end (end_col line (slot_at col) col src, encoding line (slot_at col) col src)
  unfolding behind_kernel encoding end_col
  behind_kernel-end_with col src k ne b w =
      let enc = encoding-ne line (slot_at col) col src ne in
      let rest = drop k.consumed src in
      elim (Bool-cases (leb (length src) k.consumed)) [
        | inl all ↦
            let none_left = drop-all k.consumed src (leb→le _ _ all) in
            let writes = rw (none_left, append-nil) at w.writes in
            let keeps = rw none_left at w.keeps in
            rw all (
              end_with-escape_tail do_end k.column k.written (λ e. enc (sym writes ∙ e)) ∙ λ i.
              end_with do_end (keeps i, writes i))
        | inr some_left ↦
            let left : rest ≢ [] = λ e.
              absurd
                (omega (arith, ap length e, length-drop k.consumed src, leb-lt _ _ some_left)) in
            rw
              (
                some_left,
                encode_generic-end_with line k.column rest do_end left (IsBytes-drop _ src b),
              )
              (sym (end_with-append do_end _ k.written _ (encoding-ne line _ k.column rest left))
                ∙ λ i. end_with do_end (w.keeps i, w.writes i))
      ]

  encode_from-end_with :
      (col : ℕ) (src : Bytes)
      → src ≢ []
      → IsBytes src
      → encode_from kernel line col src do_end
        ≡ end_with do_end (end_col line (slot_at col) col src, encoding line (slot_at col) col src)
  unfolding encode_from
  encode_from-end_with col src ne b = elim (Bool-cases (ltb (length src) 12)) [
    | inl short ↦ rw short (encode_generic-end_with line col src do_end ne b)
    | inr long ↦
        let (k, e, w) = is_kernel col src (ltb-le _ _ long) b in
        rw (long, e) (behind_kernel-end_with col src k ne b w)
  ]

  -- For every kernel that encodes what it takes, `encodeSIMD` writes on one byte or more just what
  -- `encodeGeneric` writes from the same column, with `doEnd` and without, and stores the same column.
  -- A nil pointer and a negative column count as column 0.
  pub encode_simd-encode_generic :
      (col : Option ℤ) (src : Bytes)
      → src ≢ []
      → IsBytes src
      → encode_simd kernel line col src do_end
        ≡ (encode_generic line (start_column col) src do_end >>= store col)
  unfolding encode_simd
  encode_simd-encode_generic col [] ne b = absurd (ne refl)
  encode_simd-encode_generic col (c ∷ r) ne b =
      rw
        (
          encode_from-end_with (start_column col) (c ∷ r) ne b,
          encode_generic-end_with line (start_column col) (c ∷ r) do_end ne b,
        )
        refl
