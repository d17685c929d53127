-- ===== src/Simd/Decode/Avx2/Rounds.antt =====
-- Every round of the loop: a block without an end is decoded, and a block with one is left.
use rapidyenc.Base.{
  ℕ, zero, suc, ◌+◌, ◌≤◌, ◌≡◌, refl, ap, ◌∙◌, arith, Bool, true, false, [], ◌∷◌, Bytes, length,
  drop, replicate, not, ◌&&◌, ◌||◌, ◌*◌, ◌==◌, if◌then◌else◌, Bool-cases, inl, inr, Option,
}
use rapidyenc.Go.Word64.{Word, is_zero, value, w_and, word, bit_value}
use rapidyenc.Go.Archsimd.{lane}
use rapidyenc.Simd.Decode.Avx2.LineEnds.{mask_at_end}
use rapidyenc.Simd.Decode.Avx2.Loop.{
  Progress, Block, go_on, break_off, unescaped_block, plain_block, special_block, block,
}
use rapidyenc.Simd.Decode.Avx2.Each.{each, any_of}
use rapidyenc.Simd.Decode.Avx2.Lanes.{at_end, Seen, is_special, is_sound}
use rapidyenc.Simd.Decode.Avx2.Marks.{with_dots}
use rapidyenc.Simd.Decode.Avx2.Search.{marks}
use rapidyenc.Simd.Decode.Avx2.Lines.{at_eq}
use rapidyenc.Simd.Decode.Avx2.Blocks.{
  Holds, GoesOn, block-marks, special_block-lem, special_block-go_on, behind_block-GoesOn,
}
use rapidyenc.Simd.Decode.Avx2.Plain.{plain-no_end, plain_block-go_on}

-- The mask that says where a stuffed dot is awaited.
abbrev pub mask_for : Seen → ℕ
mask_for s = if s.dot then 1 else if s.later then 2 else 0

lane-drop_one : (p : Bytes) → lane 0 (drop 1 p) ≡ lane 1 p
lane-drop_one [] = refl
lane-drop_one (a ∷ []) = refl
lane-drop_one (a ∷ b ∷ p) = refl

clash : {A : Type 0} (b : Bool) → b ≡ true → b ≡ false → A
clash true h k = absurd (ground (arith, k))
clash false h k = absurd (ground (arith, h))

value-and_nothing : (x : Word) (n : ℕ) → value (w_and x (replicate n false)) ≡ 0
value-and_nothing [] n = refl
value-and_nothing (a ∷ x) zero = refl
value-and_nothing (true ∷ x) (suc n) = rw (value-and_nothing x n) refl
value-and_nothing (false ∷ x) (suc n) = rw (value-and_nothing x n) refl

value-first : (a : Bool) (x : Word) → value (w_and (a ∷ x) (word 16 1)) ≡ bit_value a
value-first true x = rw (value-and_nothing x 15) refl
value-first false x = rw (value-and_nothing x 15) refl

value-second : (a b : Bool) (x : Word) → value (w_and (a ∷ b ∷ x) (word 16 2)) ≡ 2 * bit_value b
value-second true true x = rw (value-and_nothing x 14) refl
value-second true false x = rw (value-and_nothing x 14) refl
value-second false true x = rw (value-and_nothing x 14) refl
value-second false false x = rw (value-and_nothing x 14) refl

mask_at_end-marks :
    (y z : Bool) (p : Bytes)
    → mask_at_end p (marks y z p) ≡ (
        if lane 0 p == b'.'
        then bit_value (is_special (lane 0 p) || y)
        else if lane 1 p == b'.'
        then 2 * bit_value (is_special (lane 1 p) || z)
        else 0)
unfolding mask_at_end
mask_at_end-marks y z p =
    let a = is_special (lane 0 p) || y in
    let b = is_special (lane 0 (drop 1 p)) || z in
    let rest = each 14 (λ v. is_special (lane 0 v)) (drop 1 (drop 1 p)) in
    ap
      (λ k.
        if lane 0 p == b'.'
        then k
        else if lane 1 p == b'.'
        then value (w_and (a ∷ b ∷ rest) (word 16 2))
        else 0)
      (value-first a (b ∷ rest))
    ∙ ap (λ k. if lane 0 p == b'.' then bit_value a else if lane 1 p == b'.' then k else 0)
        (value-second a b rest ∙ ap (λ c. 2 * bit_value (is_special c || z)) (lane-drop_one p))

told :
    (x y z : Bool) (c0 c1 : ℕ)
    → (not y || not x && (c0 == b'.')) ≡ true
    → (not z || not x && (not y && (c0 == b'\n' && c1 == b'.'))) ≡ true
    → (if c0 == b'.'
        then bit_value (is_special c0 || y)
        else if c1 == b'.'
        then 2 * bit_value (is_special c1 || z)
        else 0)
      ≡ (if y then 1 else if z then 2 else 0)
told x y z c0 c1 h k = ground arith

-- At an end, the mask is told from the marks of the first two bytes.
mask_at_end-mask_for :
    (s : Seen) (p : Bytes)
    → is_sound s p ≡ true
    → mask_at_end p (marks s.dot s.later p) ≡ mask_for s
mask_at_end-mask_for s p h =
    mask_at_end-marks s.dot s.later p
    ∙ told s.esc s.dot s.later (lane 0 p) (lane 1 p) (ground arith) (ground arith)

module _ (p : Bytes) (s : Seen) (out : Bytes) (n : ℕ) (l : Progress) (holds : Holds s out n l)
    (sound : is_sound s p ≡ true) (long : 68 ≤ length p) (room : l.produced + 64 ≤ n) where
  -- A block without an end is decoded.
  pub block-go_on :
      any_of 64 at_end p ≡ false → (m : Progress) × (block p l ≡ go_on m) × GoesOn p s out n l m
  block-go_on e =
      let choice : Bool → Block =
        λ b. if b then plain_block p l else special_block p l (marks s.dot s.later p) in
      elim (Bool-cases (is_zero (marks s.dot s.later p))) [
        | inl plain ↦
            let (m, same, goes) = plain_block-go_on p s out n l holds long room plain in
            (m, block-marks p s out n l holds sound long room ∙ ap choice plain ∙ same, goes)
        | inr marked ↦ (
          _,
          block-marks p s out n l holds sound long room
              ∙ ap choice marked
              ∙ special_block-go_on p s out n l holds sound long room e,
          behind_block-GoesOn p s out n l holds sound long room,
        )
      ]

  -- One with an end is left, and the mask is that of the bytes in front of it.
  pub block-break_off :
      any_of 64 at_end p ≡ true → block p l ≡ break_off (record l { next_mask = mask_for s })
  unfolding unescaped_block
  block-break_off e =
      let choice : Bool → Block =
        λ b. if b then plain_block p l else special_block p l (marks s.dot s.later p) in
      elim (Bool-cases (is_zero (marks s.dot s.later p))) [
        | inl plain ↦ clash (any_of 64 at_end p) e (plain-no_end p s out n l holds long room plain)
        | inr marked ↦
            block-marks p s out n l holds sound long room
            ∙ ap choice marked
            ∙ special_block-lem p s out n l holds sound long room
            ∙ ap
                (λ b.
                  unescaped_block p l (marks s.dot s.later p)
                    (if b then Option.none else Option.some (with_dots (marks s.dot s.later p) p))
                    (each 64 at_eq p))
                e
            ∙ ap (λ k. break_off (record l { next_mask = k })) (mask_at_end-mask_for s p sound)
      ]
