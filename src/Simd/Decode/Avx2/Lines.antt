-- ===== src/Simd/Decode/Avx2/Lines.antt =====
-- The whole search of a block for line ends: what it gives, told from the bytes at each place.
use rapidyenc.Base.{
  ℕ, ◌≤◌, ◌≡◌, refl, sym, ap, ◌∙◌, arith, Bool, true, false, not, ◌&&◌, ◌||◌, ◌++◌, Bytes, length,
  length-drop, drop, ◌==◌, if◌then◌else◌, Bool-cases, inl, inr, none, some,
}
use rapidyenc.Go.Word64.{xor, same_word}
use rapidyenc.Go.Archsimd.{lane}
use rapidyenc.Simd.Decode.Avx2.Each.{each, any_of, skip, each-append, is_zero-each, none_of-none_of}
use rapidyenc.Simd.Decode.Avx2.LineEnds.{find_lines, line_starts, matches}
use rapidyenc.Simd.Decode.Avx2.Lanes.{at_end, at_nl_dot, is_special}
use rapidyenc.Simd.Decode.Avx2.Ends.{matches-each}
use rapidyenc.Simd.Decode.Avx2.Marks.{min_mask_for, with_dots, no_dots, line_starts-with_dots}
use rapidyenc.Simd.Decode.Avx2.Search.{marks}

abbrev pub at_eq : Bytes → Bool
at_eq v = lane 0 v == b'='

-- `maskEq`
pub mask_eq-each :
    (p : Bytes) → 64 ≤ length p → matches 0 b'=' p ++ matches 0 b'=' (drop 32 p) ≡ each 64 at_eq p
mask_eq-each p long =
    ap (λ x. x ++ matches 0 b'=' (drop 32 p)) (matches-each 0 b'=' p (omega (arith, long)))
    ∙ ap (λ x. each 32 at_eq p ++ x)
        (matches-each 0 b'=' (drop 32 p) (omega (arith, long, length-drop 32 p)))
    ∙ each-append at_eq 32 32 p

-- A special byte that is not "=".
abbrev at_other : Bytes → Bool
at_other v = xor (is_special (lane 0 v)) (at_eq v)

at_end-other : (v : Bytes) → at_end v ≡ true → at_other v ≡ true
at_end-other v h = ground arith

at_nl_dot-other : (v : Bytes) → at_nl_dot v ≡ true → at_other v ≡ true
at_nl_dot-other v h = ground arith

only_eq :
    (c : ℕ) (d : Bool)
    → (d ≡ true → (c == b'.') ≡ true)
    → not (xor (is_special c || d) (c == b'=')) ≡ true
    → (d ≡ false) × (xor (is_special c) (c == b'=') ≡ false)
only_eq c true h e = let dot = h refl in absurd (ground (arith, dot, e))
only_eq c false h e = (refl, ground (arith, e))

both_true : (a b c : Bool) → (a && (b && not c)) ≡ true → (a ≡ true) × (b ≡ true) × (c ≡ false)
both_true true true false h = (refl, refl, refl)
both_true true true true h = absurd (ground (arith, h))
both_true true false c h = absurd (ground (arith, h))
both_true false b c h = absurd (ground (arith, h))

module _ (d0 d1 : Bool) (p : Bytes) where
  same_word-marks : same_word (marks d0 d1 p) (each 64 at_eq p) ≡ (
      not (xor (is_special (lane 0 p) || d0) (at_eq p))
      && (not (xor (is_special (lane 0 (drop 1 p)) || d1) (at_eq (drop 1 p)))
          && not (any_of 62 at_other (skip 2 p))))
  same_word-marks =
      ap
        (λ b.
          not (xor (is_special (lane 0 p) || d0) (at_eq p))
          && (not (xor (is_special (lane 0 (drop 1 p)) || d1) (at_eq (drop 1 p))) && b))
        (is_zero-each at_other 62 (skip 2 p))

  -- On a block of 64 bytes with four more behind it, where each dot that is awaited at the first two
  -- places is there, the search for line ends breaks off exactly if an end of a stream starts in the
  -- block, and gives otherwise the mask of the special bytes and of all stuffed dots, with the
  -- `minMask` for the dots at the start of the next block.
  pub find_lines-with_dots :
      68 ≤ length p
      → (d0 ≡ true → (lane 0 p == b'.') ≡ true)
      → (d1 ≡ true → (lane 0 (drop 1 p) == b'.') ≡ true)
      → find_lines p (marks d0 d1 p) (each 64 at_eq p) (min_mask_for d0 d1)
        ≡ (if any_of 64 at_end p then none else some (with_dots (marks d0 d1 p) p))
  unfolding find_lines
  find_lines-with_dots long h0 h1 =
      elim (Bool-cases (same_word (marks d0 d1 p) (each 64 at_eq p))) [
        | inr other ↦
            ap
              (λ b.
                if not b
                then line_starts p (marks d0 d1 p)
                else some (marks d0 d1 p, min_mask_for d0 d1))
              other
            ∙ line_starts-with_dots p long (marks d0 d1 p) refl
        | inl same ↦
            let (e0, e1, e) =
              both_true _ _ (any_of 62 at_other (skip 2 p)) (sym same_word-marks ∙ same) in
            let (n0, f0) = only_eq (lane 0 p) d0 h0 e0 in
            let (n1, f1) = only_eq (lane 0 (drop 1 p)) d1 h1 e1 in
            let other : any_of 64 at_other p ≡ false =
              ap (λ b. b || any_of 63 at_other (drop 1 p)) f0
              ∙ ap (λ b. b || any_of 62 at_other (skip 2 p)) f1
              ∙ e in
            let no_end = none_of-none_of at_end at_other 64 p at_end-other other in
            let no_dot = none_of-none_of at_nl_dot at_other 64 p at_nl_dot-other other in
            ap
              (λ b.
                if not b
                then line_starts p (marks d0 d1 p)
                else some (marks d0 d1 p, min_mask_for d0 d1))
              same
            ∙ ap (λ b. some (marks d0 d1 p, min_mask_for b d1)) n0
            ∙ ap (λ b. some (marks d0 d1 p, min_mask_for false b)) n1
            ∙ ap some (sym (no_dots p long (marks d0 d1 p) refl no_dot))
            ∙ ap (λ b. if b then none else some (with_dots (marks d0 d1 p) p)) (sym no_end)
      ]
