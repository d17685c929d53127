-- ===== src/Simd/Decode/Avx2/Stores.antt =====
-- The four stores of a block together.
use rapidyenc.Base.{
  ℕ, zero, suc, ◌+◌, ◌-◌, ◌≤◌, ◌≡◌, refl, sym, ap, ◌∙◌, arith, Bool, true, false, [], ◌∷◌, ◌++◌,
  append_assoc, Bytes, length, length-drop, length-take, take, drop, take-all, drop-append_le,
  drop-add, drop-length-append, take-length-append,
}
use rapidyenc.Go.Word64.{Word, ones_count}
use rapidyenc.Go.Archsimd.{store, get_lo, get_hi}
use rapidyenc.Simd.Decode.Avx2.Escapes.{Unescaped}
use rapidyenc.Simd.Decode.Avx2.Loop.{compacted, store_block}
use rapidyenc.Simd.Decode.Avx2.Compact.{keep, put, length-put, take_within}

take-nothing : (n : ℕ) → take {A = Bool} n [] ≡ []
take-nothing zero = refl
take-nothing (suc n) = refl

ones-take :
    (n m : ℕ) (x : Word)
    → ones_count (take (n + m) x) ≡ ones_count (take n x) + ones_count (take m (drop n x))
ones-take zero m x = let e : 0 + m ≡ m = omega arith in rw e (omega arith)
ones-take (suc n) m [] =
    let long = ap ones_count (take-nothing (suc n + m)) in
    let short = ap ones_count (take-nothing m) in omega (arith, long, short)
ones-take (suc n) m (a ∷ x) =
    let e : suc n + m ≡ suc (n + m) = omega arith in
    let h = ones-take n m x in rw e (omega (arith, h))

ones-take_le : (n : ℕ) (x : Word) → ones_count (take n x) ≤ n
ones-take_le zero x = omega arith
ones-take_le (suc n) [] = omega arith
ones-take_le (suc n) (true ∷ x) = let h = ones-take_le n x in omega (arith, h)
ones-take_le (suc n) (false ∷ x) = let h = ones-take_le n x in omega (arith, h)

keep-nothing : (ks : Word) → keep ks [] ≡ []
keep-nothing [] = refl
keep-nothing (k ∷ ks) = refl

keep-split :
    (n : ℕ) (ks : Word) (x : Bytes)
    → keep ks x ≡ keep (take n ks) (take n x) ++ keep (drop n ks) (drop n x)
keep-split zero ks x = refl
keep-split (suc n) [] x = refl
keep-split (suc n) (k ∷ ks) [] = sym (keep-nothing (drop n ks))
keep-split (suc n) (true ∷ ks) (a ∷ x) = keep-split n ks x
keep-split (suc n) (false ∷ ks) (a ∷ x) = ap (λ y. a ∷ y) (keep-split n ks x)

four_parts :
    {w x y z : Bytes} (out a b c e : Bytes)
    → w ≡ out ++ a
    → x ≡ w ++ b
    → y ≡ x ++ c
    → z ≡ y ++ e
    → z ≡ out ++ (a ++ (b ++ (c ++ e)))
four_parts out a b c e p q r s =
    s
    ∙ ap (λ t. t ++ e) (r ∙ ap (λ t. t ++ c) (q ∙ ap (λ t. t ++ b) p))
    ∙ append_assoc ((out ++ a) ++ b) c e
    ∙ append_assoc (out ++ a) b (c ++ e)
    ∙ append_assoc out a (b ++ (c ++ e))

module _ (mask : Word) (lo hi : Bytes) (m64 : length mask ≡ 64) (lo32 : length lo ≡ 32)
    (hi32 : length hi ≡ 32) where
  keep-halves :
      keep mask (lo ++ hi)
      ≡ keep (take 16 mask) (get_lo lo)
        ++ (keep (take 16 (drop 16 mask)) (get_hi lo)
            ++ (keep (take 16 (drop 32 mask)) (get_lo hi)
                ++ keep (take 16 (drop 48 mask)) (get_hi hi)))
  keep-halves =
      let upper = drop 16 lo in
      let upper16 : length upper ≡ 16 = omega (arith, length-drop 16 lo, lo32) in
      let a = take_within 16 lo hi (omega (arith, lo32)) in
      let b = drop-append_le 16 lo hi (omega (arith, lo32)) in
      let c = ap (λ n. take n (upper ++ hi)) (sym upper16) ∙ take-length-append upper hi in
      let e = ap (λ n. drop n (upper ++ hi)) (sym upper16) ∙ drop-length-append upper hi in
      let last = take-all 16 (drop 48 mask) (omega (arith, length-drop 48 mask, m64)) in
      keep-split 16 mask (lo ++ hi)
      ∙ rw (a, b)
          (ap (λ y. keep (take 16 mask) (get_lo lo) ++ y)
            (keep-split 16 (drop 16 mask) (upper ++ hi)
              ∙ rw (c, e, sym (drop-add 16 16 mask))
                  (ap (λ y. keep (take 16 (drop 16 mask)) upper ++ y)
                    (keep-split 16 (drop 32 mask) hi
                      ∙ ap (λ k. keep (take 16 (drop 32 mask)) (get_lo hi) ++ keep k (get_hi hi))
                          (sym (drop-add 32 16 mask) ∙ sym last)))))

  -- For a mask of 64 bits and two halves of 32 bytes, with room for 64 bytes at the offset, the four
  -- stores by the rows of `compactLUT` put the bytes whose bit is 0 behind those that were there, in
  -- their order, and `dest` keeps its length.
  pub store_block-keep :
      (d : ℕ) (esc : Word) (dest : Bytes)
      → d + 64 ≤ length dest
      → let u : Unescaped = record { mask = mask; esc_first = esc; lo = lo; hi = hi } in
        (length (store_block d u dest) ≡ length dest)
        × (take (d + (64 - ones_count mask)) (store_block d u dest)
            ≡ take d dest ++ keep mask (lo ++ hi))
  unfolding store_block
  store_block-keep d esc dest h =
      let o0 = ones-take_le 16 mask in
      let o1 = ones-take_le 16 (drop 16 mask) in
      let o2 = ones-take_le 16 (drop 32 mask) in
      let o3 = ones-take_le 16 (drop 48 mask) in
      let t1 = ones-take 16 16 mask in
      let t2 = ones-take 32 16 mask in
      let t3 = ap ones_count (sym (take-all 64 mask (omega (arith, m64)))) ∙ ones-take 48 16 mask in
      let d1 = d + (16 - ones_count (take 16 mask)) in
      let d2 = d + (32 - ones_count (take 32 mask)) in
      let d3 = d + (48 - ones_count (take 48 mask)) in
      let e2 : d2 ≡ d1 + (16 - ones_count (take 16 (drop 16 mask))) = omega (arith, o0, o1, t1) in
      let e3 : d3 ≡ d2 + (16 - ones_count (take 16 (drop 32 mask))) =
        omega (arith, o0, o1, o2, t1, t2) in
      let e4 : d + (64 - ones_count mask) ≡ d3 + (16 - ones_count (take 16 (drop 48 mask))) =
        omega (arith, o0, o1, o2, o3, t1, t2, t3) in
      let w0 : length (get_lo lo) ≡ 16 = omega (arith, length-take 16 lo, lo32) in
      let w1 : length (get_hi lo) ≡ 16 = omega (arith, length-drop 16 lo, lo32) in
      let w2 : length (get_lo hi) ≡ 16 = omega (arith, length-take 16 hi, hi32) in
      let w3 : length (get_hi hi) ≡ 16 = omega (arith, length-drop 16 hi, hi32) in
      let m1 = store d (compacted mask (get_lo lo) 0) dest in
      let m2 = store d1 (compacted mask (get_hi lo) 16) m1 in
      let m3 = store d2 (compacted mask (get_lo hi) 32) m2 in
      let l1 = length-put mask (get_lo lo) 0 (omega (arith, m64)) w0 d dest (omega (arith, h)) in
      let l2 =
        length-put mask (get_hi lo) 16 (omega (arith, m64)) w1 d1 m1 (omega (arith, h, l1)) in
      let l3 =
        length-put mask (get_lo hi) 32 (omega (arith, m64)) w2 d2 m2 (omega (arith, h, l1, l2)) in
      let l4 =
        length-put mask (get_hi hi) 48 (omega (arith, m64)) w3 d3 m3
          (omega (arith, h, l1, l2, l3)) in
      let p0 = put mask (get_lo lo) 0 (omega (arith, m64)) w0 d dest (omega (arith, h)) in
      let p1 = put mask (get_hi lo) 16 (omega (arith, m64)) w1 d1 m1 (omega (arith, h, l1)) in
      let p2 = put mask (get_lo hi) 32 (omega (arith, m64)) w2 d2 m2 (omega (arith, h, l1, l2)) in
      let p3 =
        put mask (get_hi hi) 48 (omega (arith, m64)) w3 d3 m3 (omega (arith, h, l1, l2, l3)) in
      let m4 = store d3 (compacted mask (get_hi hi) 48) m3 in
      let s2 = ap (λ k. take k m2) e2 ∙ p1 in
      let s3 = ap (λ k. take k m3) e3 ∙ p2 in
      let s4 = ap (λ k. take k m4) e4 ∙ p3 in
      let all = four_parts _ _ _ _ _ p0 s2 s3 s4 in
      (l4 ∙ l3 ∙ l2 ∙ l1, all ∙ ap (λ y. take d dest ++ y) (sym keep-halves))
