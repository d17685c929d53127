-- ===== src/Encoder/Blanks.antt =====
-- A tab or a space at the end of the encoded text, which is escaped when nothing follows it.
use rapidyenc.Base.{
  ℕ, suc, ◌+◌, ◌-◌, true, false, none, some, [], ◌∷◌, ◌++◌, ◌≡◌, ◌≢◌, refl, sym, ap, ◌∙◌, arith,
  Bytes, IsByte, add_byte, length, take, ltb, append_assoc, length-append, Bool-cases, inl, inr,
}
use rapidyenc.Decoder.{State}
use rapidyenc.Decoder.Automaton.{read}
use rapidyenc.Encoder.{get_last?}
use rapidyenc.Encoder.Reference.{
  Slot, start, within, full, is_blank, mid_code, first_code, last_code, code, next_slot, next_col,
  encoding,
}
use rapidyenc.Encoder.Refine.{IsBytes}
use rapidyenc.Encoder.RoundTrip.{state_at, read-code, state_at-next_slot}

-- All bytes but the last.
abbrev pub front : Bytes → Bytes
front xs = take (length xs - 1) xs

-- How a tab or a space stands at the very end.
abbrev pub escaped_end : ℕ → Bytes
escaped_end b = b'=' ∷ add_byte b 64 ∷ []

pub get_last?-append : (xs ys : Bytes) → ys ≢ [] → get_last? (xs ++ ys) ≡ get_last? ys
get_last?-append [] ys h = refl
get_last?-append (x ∷ []) [] h = absurd (h refl)
get_last?-append (x ∷ []) (y ∷ ys) h = refl
get_last?-append (x ∷ x' ∷ xs) ys h = get_last?-append (x' ∷ xs) ys h

pub front-append : (xs ys : Bytes) → ys ≢ [] → front (xs ++ ys) ≡ xs ++ front ys
front-append xs [] h = absurd (h refl)
front-append [] ys h = refl
front-append (x ∷ xs) (y ∷ ys) h =
    let e : length (x ∷ (xs ++ (y ∷ ys))) - 1 ≡ suc (length (xs ++ (y ∷ ys)) - 1) =
      omega (arith, length-append xs (y ∷ ys)) in
    rw e (ap (◌∷◌ x) (front-append xs (y ∷ ys) h))

pub front-last : (xs : Bytes) (b : ℕ) → get_last? xs ≡ some b → front xs ++ (b ∷ []) ≡ xs
front-last [] b h = absurd cc
front-last (x ∷ []) b h = ap (λ y. y ∷ []) (ground arith)
front-last (x ∷ y ∷ r) b h =
    let e : length (x ∷ y ∷ r) - 1 ≡ suc (length (y ∷ r) - 1) = omega arith in
    rw e (ap (◌∷◌ x) (front-last (y ∷ r) b h))

-- Only a byte inside a line ends in a blank.
read-mid_end :
    (out rest : Bytes) (c b : ℕ)
    → IsByte c
    → get_last? (mid_code c ++ []) ≡ some b
    → is_blank b ≡ true
    → read out State.none (front (mid_code c ++ []) ++ (escaped_end b ++ rest))
      ≡ read (out ++ (c ∷ [])) State.none rest
unfolding read
read-mid_end out rest c b h last blank = ground arith

first_code-last :
    (c b : ℕ) → IsByte c → get_last? (first_code c ++ []) ≡ some b → is_blank b ≡ false
first_code-last c b h last = ground arith

last_code-last : (c b : ℕ) → IsByte c → get_last? (last_code c ++ []) ≡ some b → is_blank b ≡ false
last_code-last c b h last = ground arith

first_code-some : (c : ℕ) → first_code c ++ [] ≢ []
first_code-some c = ground arith

no_blank : (b : ℕ) → is_blank b ≡ true → is_blank b ≢ false
no_blank b p q = absurd (cc (sym p ∙ q))

broken_line-last :
    (c b : ℕ)
    → IsByte c
    → get_last? (b'\r' ∷ b'\n' ∷ (first_code c ++ [])) ≡ some b
    → is_blank b ≡ false
broken_line-last c b h last =
    first_code-last c b h
      (sym (get_last?-append (b'\r' ∷ b'\n' ∷ []) (first_code c ++ []) (first_code-some c)) ∙ last)

pub encoding-some :
    (line : ℕ) (s : Slot) (col c : ℕ) (cs : Bytes) → encoding line s col (c ∷ cs) ≢ []
unfolding encoding
encoding-some line start col c cs = ground arith
encoding-some line full col c cs = ground arith
encoding-some line within col c cs = ground arith

module _ (line : ℕ) where
  -- The last byte of a call, with a blank at its end escaped.
  read-code_end :
      (s : Slot) (col c b : ℕ) (out rest : Bytes)
      → IsByte c
      → get_last? (code line s col c ++ []) ≡ some b
      → is_blank b ≡ true
      → read out (state_at s) (front (code line s col c ++ []) ++ (escaped_end b ++ rest))
        ≡ read (out ++ (c ∷ [])) State.none rest
  read-code_end start col c b out rest h last blank =
      absurd (no_blank b blank (first_code-last c b h last))
  read-code_end full col c b out rest h last blank =
      absurd (no_blank b blank (broken_line-last c b h last))
  read-code_end within col c b out rest h last blank = elim (Bool-cases (ltb (col + 1) line)) [
    | inl inside ↦ rw inside (read-mid_end out rest c b h (rw inside at last) blank)
    | inr over ↦ elim (Bool-cases (ltb col line)) [
      | inl at_end ↦ absurd (no_blank b blank (last_code-last c b h (rw (over, at_end) at last)))
      | inr new_line ↦
          absurd (no_blank b blank (broken_line-last c b h (rw (over, new_line) at last)))
    ]
  ]

  -- A blank at the end of a call may be escaped: the decoder reads the same bytes.
  pub read-encoding_end :
      (s : Slot) (col : ℕ) (cs : Bytes) (b : ℕ) (out rest : Bytes)
      → IsBytes cs
      → get_last? (encoding line s col cs) ≡ some b
      → is_blank b ≡ true
      → read out (state_at s) (front (encoding line s col cs) ++ (escaped_end b ++ rest))
        ≡ read (out ++ cs) State.none rest
  unfolding encoding
  read-encoding_end s col [] b out rest h last blank = absurd cc
  read-encoding_end s col (c ∷ []) b out rest (h, hs) last blank =
      read-code_end s col c b out rest h last blank
  read-encoding_end s col (c ∷ d ∷ cs) b out rest (h, hs) last blank =
      let t = next_slot line s col in
      let k = next_col line s col c in
      let later = encoding line t k (d ∷ cs) in
      let some_later = encoding-some line t k d cs in
      let tail = front later ++ (escaped_end b ++ rest) in
      rw (front-append (code line s col c) later some_later, append_assoc)
        (read-code line s col c out tail h)
      ∙ ap (λ x. read (out ++ (c ∷ [])) x tail) (sym (state_at-next_slot line s col))
      ∙ read-encoding_end t k (d ∷ cs) b (out ++ (c ∷ [])) rest hs
          (sym (get_last?-append (code line s col c) later some_later) ∙ last) blank
      ∙ ap (λ o. read o State.none rest) (append_assoc out (c ∷ []) (d ∷ cs))

pub get_last?-none : (xs : Bytes) → get_last? xs ≡ none → xs ≡ []
get_last?-none [] h = refl
get_last?-none (x ∷ []) h = absurd cc
get_last?-none (x ∷ y ∷ r) h = absurd cc (get_last?-none (y ∷ r) h)
