-- ===== src/Simd/Decode/Avx2/Kept.antt =====
-- The bytes that a block keeps, by its words, are those that a run of 64 lanes decodes.
use rapidyenc.Base.{
  ℕ, zero, suc, ◌≤◌, ◌≡◌, refl, sym, ap, ◌∙◌, arith, Bool, true, false, not, ◌&&◌, ◌||◌, [], ◌∷◌,
  ◌++◌, Bytes, length, length-drop, drop, add_byte, if◌then◌else◌,
}
use rapidyenc.Go.Word64.{Word, w_and, w_or, w_not}
use rapidyenc.Go.Archsimd.{lane, load32, add}
use rapidyenc.Simd.Decode.Avx2.Tables.{neg_42, neg_106}
use rapidyenc.Simd.Decode.Avx2.Each.{each, skip, skip-drop, take-each}
use rapidyenc.Simd.Decode.Avx2.Words.{or_false}
use rapidyenc.Simd.Decode.Avx2.Spread.{bit, spelled}
use rapidyenc.Simd.Decode.Avx2.Chains.{escapes}
use rapidyenc.Simd.Decode.Avx2.Lanes.{at_nl_dot, Seen, next_seen, is_special}
use rapidyenc.Simd.Decode.Avx2.Marks.{dots}
use rapidyenc.Simd.Decode.Avx2.Search.{marks}
use rapidyenc.Simd.Decode.Avx2.Lines.{at_eq}
use rapidyenc.Simd.Decode.Avx2.Unescape.{offsets, unescaped_by}
use rapidyenc.Simd.Decode.Avx2.Compact.{keep}
use rapidyenc.Simd.Decode.Avx2.Runs.{run_out, after}

abbrev esc_flags : ℕ → Bool → Bytes → Word
esc_flags zero e w = []
esc_flags (suc n) e w = e ∷ esc_flags n (not e && at_eq w) (drop 1 w)

abbrev pub dot_flags : ℕ → Bool → Bool → Bytes → Word
dot_flags zero d0 d1 w = []
dot_flags (suc n) d0 d1 w = d0 ∷ dot_flags n d1 (at_nl_dot w) (drop 1 w)

abbrev pub special_flags : ℕ → Bytes → Word
special_flags n w = each n (λ v. is_special (lane 0 v)) w

abbrev run_mask : ℕ → Seen → Bytes → Word
run_mask n s w =
    w_and (w_or (special_flags n w) (dot_flags n s.dot s.later w)) (w_not (esc_flags n s.esc w))

keep-lane :
    (e d g : Bool) (c : ℕ) (x y : Bytes)
    → x ≡ y
    → (if (g || d) && not e then x else add_byte c (if e then neg_106 else neg_42) ∷ x)
      ≡ (if not e && (g || d) then [] else add_byte c (if e then neg_106 else neg_42) ∷ []) ++ y
keep-lane true d g c x y h = rw h (ground arith)
keep-lane false true true c x y h = h
keep-lane false false true c x y h = h
keep-lane false true false c x y h = h
keep-lane false false false c x y h = ap (λ z. add_byte c neg_42 ∷ z) h

keep-run :
    (n : ℕ) (s : Seen) (w : Bytes)
    → keep (run_mask n s w) (add (each n (lane 0) w) (offsets (esc_flags n s.esc w)))
      ≡ run_out n s w
keep-run zero s w = refl
keep-run (suc n) s w =
    keep-lane s.esc s.dot (is_special (lane 0 w)) (lane 0 w) _ _
      (keep-run n (next_seen s w) (drop 1 w))

pub marks-flags :
    (d0 d1 : Bool) (p : Bytes)
    → w_or (marks d0 d1 p) (dots p) ≡ w_or (special_flags 64 p) (dot_flags 64 d0 d1 p)
marks-flags d0 d1 p =
    let rest = w_or (special_flags 62 (skip 2 p)) (each 62 at_nl_dot p) in
    let a = is_special (lane 0 p) || d0 in
    let b = is_special (lane 0 (drop 1 p)) || d1 in
    ap (λ c. c ∷ (b || false) ∷ rest) (or_false a) ∙ ap (λ c. a ∷ c ∷ rest) (or_false b)

lanes-flags :
    (e : Bool) (p : Bytes)
    → 64 ≤ length p
    → let f = escapes e (each 64 at_eq p) in
      add (load32 p) (offsets (e ∷ spelled 31 f))
        ++ add (load32 (drop 32 p)) (offsets (spelled 32 (skip 31 f)))
      ≡ add (each 64 (lane 0) p) (offsets (esc_flags 64 e p))
lanes-flags e p h =
    let f = escapes e (each 64 at_eq p) in
    let lower = take-each 32 p (omega (arith, h)) in
    let upper =
      take-each 32 (drop 32 p) (omega (arith, h, length-drop 32 p))
      ∙ ap (each 32 (lane 0)) (sym (skip-drop 32 p)) in
    ap
      (λ x.
        add x (offsets (e ∷ spelled 31 f))
        ++ add (load32 (drop 32 p)) (offsets (spelled 32 (skip 31 f))))
      lower
    ∙ ap
        (λ x.
          add (each 32 (lane 0) p) (offsets (e ∷ spelled 31 f))
          ++ add x (offsets (spelled 32 (skip 31 f))))
        upper

-- The block by its words keeps what the run decodes.
pub keep-run_out :
    (s : Seen) (p : Bytes)
    → 64 ≤ length p
    → let u =
        unescaped_by s.esc
          (escapes s.esc (each 64 at_eq p))
          p
          (w_or (marks s.dot s.later p) (dots p)) in
      keep u.mask (u.lo ++ u.hi) ≡ run_out 64 s p
keep-run_out s p h =
    let f = escapes s.esc (each 64 at_eq p) in
    let bytes = add (each 64 (lane 0) p) (offsets (esc_flags 64 s.esc p)) in
    ap (keep (w_and (w_or (marks s.dot s.later p) (dots p)) (w_not (s.esc ∷ spelled 63 f))))
      (lanes-flags s.esc p h)
    ∙ ap (λ m. keep (w_and m (w_not (s.esc ∷ spelled 63 f))) bytes) (marks-flags s.dot s.later p)
    ∙ keep-run 64 s p

-- What is known behind the run, by the words of the block.
pub after-block :
    (s : Seen) (p : Bytes)
    → after 64 s p ≡ record {
      esc = bit 0 (skip 63 (escapes s.esc (each 64 at_eq p)));
      dot = at_nl_dot (skip 62 p);
      later = at_nl_dot (skip 63 p);
    }
after-block s p = refl
