-- ===== src/Simd/Decode/Avx2/Reads.antt =====
-- That the automaton does with a byte what the kernel does.
use rapidyenc.Base.{
  ℕ, ◌≡◌, refl, ap, ◌∙◌, arith, Bool, true, false, ◌&&◌, ◌||◌, [], ◌∷◌, ◌++◌, Bytes, add_byte, ◌==◌,
  if◌then◌else◌, Bool-cases, inl, inr,
}
use rapidyenc.Go.ByteStrings.{has_prefix}
use rapidyenc.Decoder.{State, crlf, eq, cr, crlfdt, plain, unescaped}
use rapidyenc.Decoder.Automaton.{read, on_none}
use rapidyenc.Decoder.Progress.{behind, read_from}
use rapidyenc.Simd.Decode.Probes.{ends_line}
use rapidyenc.Simd.Decode.Avx2.Tables.{neg_42, neg_106}
use rapidyenc.Simd.Decode.Avx2.Words.{or_false}
use rapidyenc.Simd.Decode.Avx2.Lanes.{
  at_nl_dot, at_end, Seen, seen_state, is_special, lane_out, next_seen, is_sound,
}

plain-neg_42 : (c : ℕ) → plain c ≡ add_byte c neg_42
plain-neg_42 c = omega arith

unescaped-neg_106 : (c : ℕ) → unescaped c ≡ add_byte c neg_106
unescaped-neg_106 c = omega arith

-- Behind "\r" and no "\n." or "\n=y", and behind a stuffed dot and no end, all is as elsewhere.
cr-none :
    (b c d : ℕ) (r : Bytes)
    → (b == b'\n' && c == b'.') ≡ false
    → (b == b'\n' && (c == b'=' && d == b'y')) ≡ false
    → read [] cr (b ∷ c ∷ d ∷ r) ≡ read [] State.none (b ∷ c ∷ d ∷ r)
unfolding read
cr-none b c d r h k = ground arith

crlfdt-none :
    (b c : ℕ) (r : Bytes)
    → (b == b'\r' && c == b'\n') ≡ false
    → (b == b'=' && c == b'y') ≡ false
    → read [] crlfdt (b ∷ c ∷ r) ≡ read [] State.none (b ∷ c ∷ r)
unfolding read
crlfdt-none b c r h k = ground arith

module _ (a b c d e : ℕ) (r more : Bytes) where
  abbrev behind_it : Bytes
  behind_it = b ∷ c ∷ d ∷ e ∷ (r ++ more)

  -- Behind "\r", the automaton awaits a line start only where "\n." follows.
  later_or_none :
      at_end (a ∷ b ∷ c ∷ d ∷ e ∷ r) ≡ false
      → read [] (if a == b'\r' then cr else State.none) behind_it
        ≡ read [] (if at_nl_dot (a ∷ b ∷ c ∷ d ∷ e ∷ r) then cr else State.none) behind_it
  later_or_none h = elim (Bool-cases (a == b'\r')) [
    | inr other ↦ rw other refl
    | inl same ↦ elim (Bool-cases (b == b'\n' && c == b'.')) [
      | inl dot ↦ rw (same, dot) refl
      | inr no_dot ↦
          rw (same, no_dot) (cr-none b c d (e ∷ (r ++ more)) no_dot (ground (arith, same, h)))
    ]
  ]

  lane_read_eq :
      at_end (a ∷ b ∷ c ∷ d ∷ e ∷ r) ≡ false
      → read [] eq (a ∷ behind_it)
        ≡ behind
            (add_byte a neg_106 ∷ [])
            (read [] (if at_nl_dot (a ∷ b ∷ c ∷ d ∷ e ∷ r) then cr else State.none) behind_it)
  unfolding read
  lane_read_eq h =
      read_from (unescaped a ∷ []) (if a == b'\r' then cr else State.none) behind_it
      ∙ ap (λ u. behind (u ∷ []) (read [] (if a == b'\r' then cr else State.none) behind_it))
          (unescaped-neg_106 a)
      ∙ ap (behind (add_byte a neg_106 ∷ [])) (later_or_none h)

  lane_read_none :
      at_end (a ∷ b ∷ c ∷ d ∷ e ∷ r) ≡ false
      → read [] State.none (a ∷ behind_it)
        ≡ behind (if is_special a then [] else add_byte a neg_42 ∷ []) (
            read []
              (if a == b'='
                then eq
                else if at_nl_dot (a ∷ b ∷ c ∷ d ∷ e ∷ r)
                then cr
                else State.none)
              behind_it)
  unfolding read on_none
  lane_read_none h = elim (Bool-cases (a == b'\r')) [
    | inl is_cr ↦
        let no_eq : (a == b'=') ≡ false = ground arith in
        let later = rw is_cr at (later_or_none h) in rw (is_cr, no_eq) later
    | inr no_cr ↦ elim (Bool-cases (a == b'\n')) [
      | inl is_lf ↦ let no_eq : (a == b'=') ≡ false = ground arith in rw (no_cr, is_lf, no_eq) refl
      | inr no_lf ↦ elim (Bool-cases (a == b'=')) [
        | inl is_eq ↦ rw (no_cr, no_lf, is_eq) refl
        | inr no_eq ↦
            rw (no_cr, no_lf, no_eq)
              (read_from (plain a ∷ []) State.none behind_it
                ∙ ap (λ u. behind (u ∷ []) (read [] State.none behind_it)) (plain-neg_42 a))
      ]
    ]
  ]

  -- A stuffed dot is gone, and what is behind it is read as elsewhere.
  lane_read_dot :
      (a == b'.') ≡ true
      → ends_line (b ∷ c ∷ d ∷ e ∷ r) ≡ false
      → read [] crlf (a ∷ behind_it)
        ≡ behind (if is_special a || true then [] else add_byte a neg_42 ∷ []) (
            read []
              (if a == b'='
                then eq
                else if at_nl_dot (a ∷ b ∷ c ∷ d ∷ e ∷ r)
                then cr
                else State.none)
              behind_it)
  unfolding read has_prefix
  lane_read_dot is_dot no_end =
      let no_eq : (a == b'=') ≡ false = ground arith in
      let no_cr : (a == b'\r') ≡ false = ground arith in
      let no_lf : (a == b'\n') ≡ false = ground arith in
      let no_crlf : (b == b'\r' && c == b'\n') ≡ false = ground arith in
      let no_eq_y : (b == b'=' && c == b'y') ≡ false = ground arith in
      rw (is_dot, no_eq, no_cr, no_lf) (crlfdt-none b c (d ∷ e ∷ (r ++ more)) no_crlf no_eq_y)

  lane_read_later :
      (a == b'\n') ≡ true
      → read [] cr (a ∷ behind_it)
        ≡ behind
            (if is_special a || false then [] else add_byte a neg_42 ∷ [])
            (read [] (if a == b'=' then eq else crlf) behind_it)
  unfolding read
  lane_read_later is_lf =
      let no_eq : (a == b'=') ≡ false = ground arith in
      let no_cr : (a == b'\r') ≡ false = ground arith in rw (is_lf, no_eq, no_cr) refl

  pub lane_read_seen :
      (x y z : Bool)
      → let s : Seen = record { esc = x; dot = y; later = z } in
        is_sound s (a ∷ b ∷ c ∷ d ∷ e ∷ r) ≡ true
        → at_end (a ∷ b ∷ c ∷ d ∷ e ∷ r) ≡ false
        → read [] (seen_state s) (a ∷ behind_it)
          ≡ behind
              (lane_out s a)
              (read [] (seen_state (next_seen s (a ∷ b ∷ c ∷ d ∷ e ∷ r))) behind_it)
  unfolding has_prefix
  lane_read_seen true true z h n = absurd (ground (arith, h))
  lane_read_seen true false true h n = absurd (ground (arith, h))
  lane_read_seen true false false h n = lane_read_eq n
  lane_read_seen false true true h n = absurd (ground (arith, h))
  lane_read_seen false true false h n = lane_read_dot (ground (arith, h)) (ground (arith, h))
  lane_read_seen false false true h n = lane_read_later (ground (arith, h))
  lane_read_seen false false false h n = rw (or_false (is_special a)) (lane_read_none n)
