-- ===== src/Simd/Decode/Avx2/Plain.antt =====
-- A block without any marked byte, which the kernel stores as it is.
use rapidyenc.Base.{
  ℕ, ◌+◌, ◌≤◌, ◌≡◌, refl, sym, ap, ◌∙◌, arith, Bool, true, false, not, ◌&&◌, ◌||◌, [], ◌∷◌, ◌++◌,
  append_assoc, Bytes, length, length-drop, length-append, take, drop, take-all, replicate,
}
use rapidyenc.Go.Word64.{Word, is_zero, w_and, w_or, w_not, word}
use rapidyenc.Go.Archsimd.{lane, load32, add, broadcast, store}
use rapidyenc.Simd.Decode.Avx2.Tables.{neg_42, yenc_offset_of, broadcast_escape_first}
use rapidyenc.Simd.Decode.Avx2.Loop.{Progress, go_on, plain_block}
use rapidyenc.Simd.Decode.Avx2.Each.{
  each, any_of, skip, each-none, none_at, none_of-none_of, is_zero-each,
}
use rapidyenc.Simd.Decode.Avx2.Spread.{bit, spelled}
use rapidyenc.Simd.Decode.Avx2.Chains.{escapes, low_bit}
use rapidyenc.Simd.Decode.Avx2.Lanes.{at_nl_dot, at_end, Seen, is_special}
use rapidyenc.Simd.Decode.Avx2.Marks.{dots, min_mask_for}
use rapidyenc.Simd.Decode.Avx2.Search.{marks}
use rapidyenc.Simd.Decode.Avx2.Lines.{at_eq}
use rapidyenc.Simd.Decode.Avx2.Unescape.{offsets}
use rapidyenc.Simd.Decode.Avx2.Compact.{keep, take-store, length-store}
use rapidyenc.Simd.Decode.Avx2.Runs.{run_out}
use rapidyenc.Simd.Decode.Avx2.Kept.{keep-run_out}
use rapidyenc.Simd.Decode.Avx2.Blocks.{Holds, GoesOn, length-half}

abbrev at_special : Bytes → Bool
at_special v = is_special (lane 0 v)

abbrev nothing : Word
nothing = replicate 64 false

no_bits : (x : Word) → is_zero x ≡ true → x ≡ replicate (length x) false
no_bits [] h = refl
no_bits (true ∷ x) h = absurd (ground (arith, h))
no_bits (false ∷ x) h = ap (λ y. false ∷ y) (no_bits x h)

keep-all : (x : Bytes) → keep (replicate (length x) false) x ≡ x
keep-all [] = refl
keep-all (a ∷ x) = ap (λ y. a ∷ y) (keep-all x)

escapes-nothing : (e : Bool) → escapes e nothing ≡ nothing
escapes-nothing true = refl
escapes-nothing false = refl

offsets-nothing : (e : Bool) → offsets (e ∷ replicate 31 false) ≡ yenc_offset_of e
unfolding yenc_offset_of broadcast_escape_first
offsets-nothing true = refl
offsets-nothing false = refl

length-yenc_offset_of : (e : Bool) → length (yenc_offset_of e) ≡ 32
unfolding yenc_offset_of broadcast_escape_first
length-yenc_offset_of true = refl
length-yenc_offset_of false = refl

unmarked :
    (c : Bool) (d : Bool) (rest : Bool)
    → (not (c || d) && rest) ≡ true
    → (c ≡ false) × (d ≡ false) × (rest ≡ true)
unmarked true d rest h = absurd (ground (arith, h))
unmarked false true rest h = absurd (ground (arith, h))
unmarked false false rest h = (refl, refl, h)

not-true : (b : Bool) → not b ≡ true → b ≡ false
not-true true h = absurd (ground (arith, h))
not-true false h = refl

end-special : (v : Bytes) → at_end v ≡ true → at_special v ≡ true
end-special v h = ground arith

nl_dot-special : (v : Bytes) → at_nl_dot v ≡ true → at_special v ≡ true
nl_dot-special v h = ground arith

eq-special : (v : Bytes) → at_eq v ≡ true → at_special v ≡ true
eq-special v h = ground arith

-- What no marks say of a block.
record IsPlain (d0 d1 : Bool) (p : Bytes) : Type 0 where
  first : d0 ≡ false
  second : d1 ≡ false
  specials : any_of 64 at_special p ≡ false

is_zero-IsPlain : (d0 d1 : Bool) (p : Bytes) → is_zero (marks d0 d1 p) ≡ true → IsPlain d0 d1 p
is_zero-IsPlain d0 d1 p h =
    let (a, e0, t) = unmarked (at_special p) d0 _ h in
    let (b, e1, u) = unmarked (at_special (drop 1 p)) d1 _ t in
    let rest = not-true _ (sym (is_zero-each at_special 62 (skip 2 p)) ∙ u) in
    record {
      first = e0;
      second = e1;
      specials =
          ap (λ x. x || any_of 63 at_special (drop 1 p)) a
          ∙ ap (λ x. x || any_of 62 at_special (skip 2 p)) b
          ∙ rest;
    }

module _ (p : Bytes) (s : Seen) (out : Bytes) (n : ℕ) (l : Progress) (holds : Holds s out n l)
    (long : 68 ≤ length p) (room : l.produced + 64 ≤ n)
    (none : is_zero (marks s.dot s.later p) ≡ true) where
  plain : IsPlain s.dot s.later p
  plain = is_zero-IsPlain s.dot s.later p none

  pub plain-no_end : any_of 64 at_end p ≡ false
  plain-no_end = none_of-none_of at_end at_special 64 p end-special plain.specials

  no_nl_dot : any_of 64 at_nl_dot p ≡ false
  no_nl_dot = none_of-none_of at_nl_dot at_special 64 p nl_dot-special plain.specials

  no_escapes : escapes s.esc (each 64 at_eq p) ≡ nothing
  no_escapes =
      ap (escapes s.esc)
        (each-none at_eq 64 p (none_of-none_of at_eq at_special 64 p eq-special plain.specials))
      ∙ escapes-nothing s.esc

  lower : Bytes
  lower = add (load32 p) (yenc_offset_of s.esc)

  upper : Bytes
  upper = add (load32 (drop 32 p)) (broadcast neg_42)

  length-lower : length lower ≡ 32
  unfolding lower
  length-lower =
      length-half p (yenc_offset_of s.esc) (omega (arith, long)) (length-yenc_offset_of s.esc)

  length-upper : length upper ≡ 32
  unfolding upper
  length-upper =
      length-half (drop 32 p) (broadcast neg_42) (omega (arith, long, length-drop 32 p)) refl

  sum : length (lower ++ upper) ≡ 64
  sum = omega (arith, length-append lower upper, length-lower, length-upper)

  plain-run_out : run_out 64 s p ≡ lower ++ upper
  unfolding lower upper
  plain-run_out =
      let halves : Word → Bytes = λ f.
        add (load32 p) (offsets (s.esc ∷ spelled 31 f))
        ++ add (load32 (drop 32 p)) (offsets (spelled 32 (skip 31 f))) in
      let kept : Word → Word → Word → Bytes =
        λ m d f. keep (w_and (w_or m d) (w_not (s.esc ∷ spelled 63 f))) (halves f) in
      let dotless : dots p ≡ nothing =
        ap (λ x. false ∷ false ∷ take 62 x) (each-none at_nl_dot 64 p no_nl_dot) in
      sym (keep-run_out s p (omega (arith, long)))
      ∙ ap (λ m. kept m (dots p) (escapes s.esc (each 64 at_eq p)))
          (no_bits (marks s.dot s.later p) none)
      ∙ ap (λ d. kept nothing d (escapes s.esc (each 64 at_eq p))) dotless
      ∙ ap (kept nothing nothing) no_escapes
      ∙ ap (λ o. keep nothing (add (load32 p) o ++ upper)) (offsets-nothing s.esc)
      ∙ ap (λ k. keep (replicate k false) (lower ++ upper)) (sym sum)
      ∙ keep-all (lower ++ upper)

  stored : Progress
  stored = record l {
    consumed = l.consumed + 64;
    produced = l.produced + 64;
    dest = store (l.produced + 32) upper (store l.produced (add (load32 p) l.yenc_offset) l.dest);
    esc_first = word 64 0;
    yenc_offset = broadcast neg_42;
  }

  stored-done :
      (length stored.dest ≡ n) × (take (l.produced + 64) stored.dest ≡ out ++ (lower ++ upper))
  unfolding stored lower
  stored-done =
      let first = store l.produced (add (load32 p) l.yenc_offset) l.dest in
      let x32 : length (add (load32 p) l.yenc_offset) ≡ 32 =
        ap (λ o. length (add (load32 p) o)) holds.offs ∙ length-lower in
      let size1 =
        length-store l.produced (add (load32 p) l.yenc_offset) l.dest
          (omega (arith, x32, room, holds.size)) in
      let size2 =
        length-store (l.produced + 32) upper first
          (omega (arith, length-upper, room, holds.size, size1)) in
      let sum : l.produced + 64 ≡ l.produced + 32 + 32 = omega arith in
      let done1 =
        take-store l.produced 32 (add (load32 p) l.yenc_offset) l.dest
          (omega (arith, room, holds.size)) (omega (arith, x32)) in
      let done2 =
        take-store (l.produced + 32) 32 upper first (omega (arith, room, holds.size, size1))
          (omega (arith, length-upper)) in
      (
        size2 ∙ size1 ∙ holds.size,
        ap (λ k. take k stored.dest) sum
            ∙ done2
            ∙ ap (λ y. y ++ take 32 upper)
                (done1
                  ∙ ap (λ y. y ++ take 32 (add (load32 p) l.yenc_offset)) holds.done
                  ∙ ap (λ o. out ++ take 32 (add (load32 p) o)) holds.offs
                  ∙ ap (λ y. out ++ y) (take-all 32 lower (omega (arith, length-lower))))
            ∙ ap (λ y. (out ++ lower) ++ y) (take-all 32 upper (omega (arith, length-upper)))
            ∙ append_assoc out lower upper,
      )

  stored-GoesOn : GoesOn p s out n l stored
  unfolding stored yenc_offset_of
  stored-GoesOn =
      let (size, done) = stored-done in
      let here : at_nl_dot (skip 62 p) ≡ false =
        none_at at_nl_dot 62 64 p (omega arith) no_nl_dot in
      let next : at_nl_dot (skip 63 p) ≡ false =
        none_at at_nl_dot 63 64 p (omega arith) no_nl_dot in
      let last : bit 0 (skip 63 (escapes s.esc (each 64 at_eq p))) ≡ false =
        ap (λ f. bit 0 (skip 63 f)) no_escapes in
      record {
        holds = record {
          mins =
              holds.mins
              ∙ ap (λ b. min_mask_for b s.later) (plain.first ∙ sym here)
              ∙ ap (min_mask_for (at_nl_dot (skip 62 p))) (plain.second ∙ sym next);
          escs = ap (λ b. low_bit b 64) (sym last);
          offs = ap yenc_offset_of (sym last);
          size = size;
          done = done ∙ ap (λ y. out ++ y) (sym plain-run_out);
        };
        takes = refl;
        gives = omega arith;
        keeps = refl;
      }

  pub plain_block-go_on : (m : Progress) × (plain_block p l ≡ go_on m) × GoesOn p s out n l m
  unfolding plain_block stored upper
  plain_block-go_on = (stored, refl, stored-GoesOn)
