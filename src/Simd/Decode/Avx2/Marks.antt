-- ===== src/Simd/Decode/Avx2/Marks.antt =====
-- The bytes that the kernel marks in a block: special ones, and the dots behind line ends.
use rapidyenc.Base.{
  ◌-◌, ◌≤◌, ◌≡◌, refl, sym, ap, ◌∙◌, arith, Bool, true, false, not, ◌&&◌, ◌||◌, ◌∷◌, ◌++◌, Bytes,
  length, length-drop, take, drop, replicate, ◌==◌, if◌then◌else◌, Option, none, some,
}
use rapidyenc.Go.Word64.{Word, is_zero, w_and, w_or, shift_left}
use rapidyenc.Go.Archsimd.{broadcast, lane}
use rapidyenc.Simd.Decode.Avx2.Each.{
  each, any_of, skip, skip-drop, each-append, is_zero-each, any_of-any_of, none_of-none_of,
  any_of-or, any_of-same, each-none, none_at,
}
use rapidyenc.Simd.Decode.Avx2.Words.{or_nothing, or_apart, w_or_assoc, is_zero-or}
use rapidyenc.Simd.Decode.Avx2.LineEnds.{
  cr_x_dot, new_line, nl_dot, eq_y, ends, next_min_mask, line_starts,
}
use rapidyenc.Simd.Decode.Avx2.Lanes.{at_nl_dot, at_end}
use rapidyenc.Simd.Decode.Avx2.Ends.{
  at_cr_x_dot, at_new_line, at_eq_y, cr_x_dot-each, new_line-each, nl_dot-each, eq_y-each,
  ends-each,
}

abbrev at_eq_y_line : Bytes → Bool
at_eq_y_line v = at_eq_y v && at_new_line v

-- The two parts of `at_end`.
abbrev at_dot_end : Bytes → Bool
at_dot_end v =
    at_nl_dot v && (lane 3 v == b'\r' && lane 4 v == b'\n' || lane 3 v == b'=' && lane 4 v == b'y')

abbrev at_line_eq_y : Bytes → Bool
at_line_eq_y v = lane 0 v == b'\r' && lane 1 v == b'\n' && (lane 2 v == b'=' && lane 3 v == b'y')

-- The dots two places behind "\r\n." that starts in the block.
abbrev pub dots : Bytes → Word
dots p = false ∷ false ∷ each 62 at_nl_dot p

-- `minMask`, with the first two bytes of a block that are stuffed dots.
abbrev pub min_mask_for : Bool → Bool → Bytes
min_mask_for d0 d1 = (if d0 then 0 else b'.') ∷ (if d1 then 0 else b'.') ∷ replicate 30 b'.'

dot_or_zero : (b : Bool) → 46 - (if b then 255 else 0) ≡ (if b then 0 else 46)
dot_or_zero true = refl
dot_or_zero false = refl

next_min_mask-each :
    (f : Bytes → Bool) (q : Bytes)
    → next_min_mask (each 32 f q) ≡ min_mask_for (f (skip 30 q)) (f (skip 31 q))
unfolding next_min_mask
next_min_mask-each f q = rw (dot_or_zero (f (skip 30 q)), dot_or_zero (f (skip 31 q))) refl

not-not : (b : Bool) → not (not b) ≡ b
not-not true = refl
not-not false = refl

-- A word for each half, and whether one of the two has a bit.
both_halves :
    (x y : Word) (f : Bytes → Bool) (p : Bytes)
    → x ≡ each 32 f p
    → y ≡ each 32 f (drop 32 p)
    → not (is_zero (w_or x y)) ≡ any_of 64 f p
both_halves x y f p a b =
    ap (λ z. not (is_zero (w_or z y))) a
    ∙ ap (λ z. not (is_zero (w_or (each 32 f p) z))) b
    ∙ ap not (is_zero-or (each 32 f p) (each 32 f (drop 32 p)) refl)
    ∙ ap (λ z. not (is_zero z)) (each-append f 32 32 p)
    ∙ ap not (is_zero-each f 64 p)
    ∙ not-not (any_of 64 f p)

or-dots :
    (mask : Word) (p : Bytes)
    → w_or
        (w_or mask (shift_left 2 (each 32 at_nl_dot p ++ replicate 32 false)))
        (shift_left 34 (each 32 at_nl_dot (drop 32 p) ++ replicate 32 false))
      ≡ w_or mask (dots p)
or-dots mask p =
    let apart = or_apart (false ∷ false ∷ each 32 at_nl_dot p) (each 30 at_nl_dot (drop 32 p)) in
    w_or_assoc mask _ _
    ∙ ap (w_or mask) (apart ∙ ap (λ x. false ∷ false ∷ x) (each-append at_nl_dot 32 30 p))

-- The mask and the `minMask` behind a search that finds no end.
abbrev pub with_dots : Word → Bytes → Word × Bytes
with_dots mask p =
    (w_or mask (dots p), min_mask_for (at_nl_dot (skip 62 p)) (at_nl_dot (skip 63 p)))

eq_y-new_line : (p : Bytes) → 36 ≤ length p → w_and (eq_y p) (new_line p) ≡ each 32 at_eq_y_line p
eq_y-new_line p long =
    ap (λ x. w_and x (new_line p)) (eq_y-each p long)
    ∙ ap (λ x. w_and (each 32 at_eq_y p) x) (new_line-each p long)

words-dots :
    (mask : Word) (p : Bytes) (x y : Word)
    → x ≡ each 32 at_nl_dot p
    → y ≡ each 32 at_nl_dot (drop 32 p)
    → (
      w_or
          (w_or mask (shift_left 2 (x ++ replicate 32 false)))
          (shift_left 34 (y ++ replicate 32 false)),
      next_min_mask y,
    )
      ≡ with_dots mask p
words-dots mask p x y a b =
    let there : drop 32 p ≡ skip 32 p = sym (skip-drop 32 p) in
    let mins =
      ap next_min_mask b
      ∙ next_min_mask-each at_nl_dot (drop 32 p)
      ∙ ap (λ w. min_mask_for (at_nl_dot (skip 30 w)) (at_nl_dot (skip 31 w))) there in
    let marks =
      ap
        (λ z.
          w_or (w_or mask (shift_left 2 (z ++ replicate 32 false)))
            (shift_left 34 (y ++ replicate 32 false)))
        a
      ∙ ap
          (λ z.
            w_or (w_or mask (shift_left 2 (each 32 at_nl_dot p ++ replicate 32 false)))
              (shift_left 34 (z ++ replicate 32 false)))
          b
      ∙ or-dots mask p in
    λ i. (marks i, mins i)

-- Both ways to search come to the same.
either_search :
    {A : Type 0} (c e y l : Bool) (a b : Option A)
    → (c ≡ false → e ≡ l)
    → (c ≡ false → b ≡ a)
    → (l ≡ true → y ≡ true)
    → (if c then (if e then none else a) else if y && l then none else b) ≡ (if e then none else a)
either_search true e y l a b same both h = refl
either_search false e y true a b same both h = rw (same refl, h refl) refl
either_search false e true false a b same both h = rw (same refl) (both refl)
either_search false e false false a b same both h = rw (same refl) (both refl)

module _ (p : Bytes) (long : 68 ≤ length p) where
  line_starts-unfolded :
      (mask : Word)
      → line_starts p mask ≡ (
          if any_of 64 at_cr_x_dot p
          then (if any_of 64 at_end p then none else some (with_dots mask p))
          else if any_of 64 at_eq_y p && any_of 64 at_eq_y_line p
          then none
          else some (mask, broadcast b'.'))
  unfolding line_starts
  line_starts-unfolded mask =
      let q = drop 32 p in
      let far : 36 ≤ length q = omega (arith, long, length-drop 32 p) in
      let near : 36 ≤ length p = omega (arith, long) in
      let words : (
        w_or (w_or mask (shift_left 2 (nl_dot p ++ replicate 32 false)))
            (shift_left 34 (nl_dot q ++ replicate 32 false)),
        next_min_mask (nl_dot q),
      )
          ≡ with_dots mask p =
        words-dots mask p (nl_dot p) (nl_dot q) (nl_dot-each p near) (nl_dot-each q far) in
      rw
        (
          both_halves (cr_x_dot p) (cr_x_dot q) at_cr_x_dot p (cr_x_dot-each p near)
              (cr_x_dot-each q far),
          both_halves (ends p) (ends q) at_end p (ends-each p near) (ends-each q far),
          both_halves (eq_y p) (eq_y q) at_eq_y p (eq_y-each p near) (eq_y-each q far),
          both_halves (w_and (eq_y p) (new_line p)) (w_and (eq_y q) (new_line q)) at_eq_y_line p
              (eq_y-new_line p near) (eq_y-new_line q far),
        )
        (ap
          (λ x.
            if any_of 64 at_cr_x_dot p
            then (if any_of 64 at_end p then none else some x)
            else if any_of 64 at_eq_y p && any_of 64 at_eq_y_line p
            then none
            else some (mask, broadcast b'.'))
          words)

  pub no_dots :
      (mask : Word)
      → length mask ≡ 64
      → any_of 64 at_nl_dot p ≡ false
      → with_dots mask p ≡ (mask, broadcast b'.')
  no_dots mask w e =
      let marks =
        ap (λ x. w_or mask (false ∷ false ∷ take 62 x)) (each-none at_nl_dot 64 p e)
        ∙ or_nothing mask 64 w in
      let here = none_at at_nl_dot 62 64 p (omega arith) e in
      let next = none_at at_nl_dot 63 64 p (omega arith) e in
      let mins =
        ap (λ b. min_mask_for b (at_nl_dot (skip 63 p))) here ∙ ap (min_mask_for false) next in
      λ i. (marks i, mins i)

  -- Where no "\r" has a dot two places on, an end can only be "\r\n=y".
  ends_apart : any_of 64 at_cr_x_dot p ≡ false → any_of 64 at_end p ≡ any_of 64 at_eq_y_line p
  ends_apart e =
      any_of-or at_dot_end at_line_eq_y 64 p
      ∙ ap (λ b. b || any_of 64 at_line_eq_y p)
          (none_of-none_of at_dot_end at_cr_x_dot 64 p (λ v h. ground arith) e)
      ∙ any_of-same at_line_eq_y at_eq_y_line 64 p (λ v. ground arith)

  pub line_starts-with_dots :
      (mask : Word)
      → length mask ≡ 64
      → line_starts p mask ≡ (if any_of 64 at_end p then none else some (with_dots mask p))
  line_starts-with_dots mask w =
      line_starts-unfolded mask
      ∙ either_search (any_of 64 at_cr_x_dot p) (any_of 64 at_end p) (any_of 64 at_eq_y p)
          (any_of 64 at_eq_y_line p) (some (with_dots mask p)) (some (mask, broadcast b'.'))
          ends_apart
          (λ e. ap some (
            sym (
              no_dots mask w (none_of-none_of at_nl_dot at_cr_x_dot 64 p (λ v h. ground arith) e))))
          (any_of-any_of at_eq_y_line at_eq_y 64 p (λ v h. ground arith))
