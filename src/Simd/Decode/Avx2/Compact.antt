-- ===== src/Simd/Decode/Avx2/Compact.antt =====
-- The stores of a block: the bytes that are kept, one behind the other.
use rapidyenc.Base.{
  ℕ, zero, suc, ◌+◌, ◌-◌, ◌%◌, ◌≤◌, ◌<◌, ◌≡◌, refl, sym, ap, ◌∙◌, arith, Bool, true, false, [], ◌∷◌,
  ◌++◌, Bytes, length, length-append, length-drop, length-take, take, drop, replicate,
  length-replicate, ltb, if◌then◌else◌, lt→ltb,
}
use rapidyenc.Go.Word64.{Word, ones_count}
use rapidyenc.Go.Archsimd.{lane, permute_or_zero, store}
use rapidyenc.Simd.Decode.Avx2.Tables.{zero_places, compact_lut}
use rapidyenc.Simd.Decode.Avx2.Loop.{compacted}

-- The bytes whose bits are not set.
abbrev pub keep : Word → Bytes → Bytes
keep [] x = []
keep (m ∷ ms) [] = []
keep (m ∷ ms) (b ∷ x) = if m then keep ms x else b ∷ keep ms x

permute_append :
    (x is js : Bytes) → permute_or_zero x (is ++ js) ≡ permute_or_zero x is ++ permute_or_zero x js
permute_append x [] js = refl
permute_append x (i ∷ is) js =
    ap (λ y. (if ltb i 128 then lane (i % 16) x else 0) ∷ y) (permute_append x is js)

permute-none : (x : Bytes) (n : ℕ) → permute_or_zero x (replicate n 0x80) ≡ replicate n 0
permute-none x zero = refl
permute-none x (suc n) = ap (λ y. 0 ∷ y) (permute-none x n)

drop-lane : (j : ℕ) (x : Bytes) → j < length x → drop j x ≡ lane j x ∷ drop (suc j) x
drop-lane j [] h = absurd (omega (arith, h))
drop-lane zero (a ∷ x) h = refl
drop-lane (suc j) (a ∷ x) h = drop-lane j x (omega (arith, h))

permute-zero_places :
    (j : ℕ) (ks : Word) (x : Bytes)
    → length x ≡ 16
    → j + length ks ≤ 16
    → permute_or_zero x (zero_places j ks) ≡ keep ks (drop j x)
permute-zero_places j [] x w h = refl
permute-zero_places j (true ∷ ks) x w h =
    rw (drop-lane j x (omega (arith, w, h))) (permute-zero_places (suc j) ks x w (omega (arith, h)))
permute-zero_places j (false ∷ ks) x w h =
    let low : j % 16 ≡ j = omega (arith, h) in
    rw (drop-lane j x (omega (arith, w, h)), lt→ltb j 128 (omega (arith, h)), low)
      (ap (λ y. lane j x ∷ y) (permute-zero_places (suc j) ks x w (omega (arith, h))))

length-permute : (x is : Bytes) → length (permute_or_zero x is) ≡ length is
length-permute x [] = refl
length-permute x (i ∷ is) = ap suc (length-permute x is)

length-zero_places : (j : ℕ) (ks : Word) → length (zero_places j ks) ≤ length ks
length-zero_places j [] = omega arith
length-zero_places j (true ∷ ks) = let h = length-zero_places (suc j) ks in omega (arith, h)
length-zero_places j (false ∷ ks) = let h = length-zero_places (suc j) ks in omega (arith, h)

ones_le : (ks : Word) → ones_count ks ≤ length ks
ones_le [] = omega arith
ones_le (true ∷ ks) = let h = ones_le ks in omega (arith, h)
ones_le (false ∷ ks) = let h = ones_le ks in omega (arith, h)

-- The last bit is not looked at; a store that follows covers the byte, where it is not kept.
take-keep :
    (ks : Word) (b : Bool) (x z : Bytes)
    → length x ≡ suc (length ks)
    → take (suc (length ks) - ones_count (ks ++ (b ∷ []))) (keep (ks ++ (false ∷ [])) x ++ z)
      ≡ keep (ks ++ (b ∷ [])) x
take-keep ks b [] z h = absurd (omega (arith, h))
take-keep [] b (a ∷ c ∷ x) z h = absurd (omega (arith, h))
take-keep [] true (a ∷ []) z h = refl
take-keep [] false (a ∷ []) z h = refl
take-keep (true ∷ ks) b (a ∷ x) z h =
    let n : suc (suc (length ks)) - (1 + ones_count (ks ++ (b ∷ [])))
        ≡ suc (length ks) - ones_count (ks ++ (b ∷ [])) =
      omega arith in
    rw n (take-keep ks b x z (omega (arith, h)))
take-keep (false ∷ ks) b (a ∷ x) z h =
    let few = ones_le (ks ++ (b ∷ [])) in
    let all = length-append ks (b ∷ []) in
    let n : suc (suc (length ks)) - (0 + ones_count (ks ++ (b ∷ [])))
        ≡ suc (suc (length ks) - ones_count (ks ++ (b ∷ []))) =
      omega (arith, few, all) in
    rw n (ap (λ y. a ∷ y) (take-keep ks b x z (omega (arith, h))))

row_length : (k : Word) → length k ≡ 15 → length (compact_lut k) ≡ 16
unfolding compact_lut
row_length k w =
    let places = zero_places 0 (k ++ (false ∷ [])) in
    let few = length-zero_places 0 (k ++ (false ∷ [])) in
    let all = length-append k (false ∷ []) in
    let both = length-append places (replicate (16 - length places) 0x80) in
    let rest = length-replicate {A = ℕ} (16 - length places) 0x80 in
    omega (arith, few, all, both, rest, w)

-- A half by its row of the table: the bytes that are kept, and zeros.
permute-compact_lut :
    (k : Word) (x : Bytes)
    → length k ≡ 15
    → length x ≡ 16
    → (z : Bytes) × (permute_or_zero x (compact_lut k) ≡ keep (k ++ (false ∷ [])) x ++ z)
unfolding compact_lut
permute-compact_lut k x w h =
    let places = zero_places 0 (k ++ (false ∷ [])) in
    let all = length-append k (false ∷ []) in
    (
      replicate (16 - length places) 0,
      permute_append x places (replicate (16 - length places) 0x80)
          ∙ ap (λ y. y ++ permute_or_zero x (replicate (16 - length places) 0x80))
              (permute-zero_places 0 (k ++ (false ∷ [])) x h (omega (arith, all, w)))
          ∙ ap (λ y. keep (k ++ (false ∷ [])) x ++ y) (permute-none x (16 - length places)),
    )

pub length-store :
    (at : ℕ) (x m : Bytes) → at + length x ≤ length m → length (store at x m) ≡ length m
length-store at x m h =
    let a = length-append (take at m) (x ++ drop (at + length x) m) in
    let b = length-append x (drop (at + length x) m) in
    omega (arith, a, b, h, length-take at m, length-drop (at + length x) m)

take_past : (n : ℕ) (xs ys : Bytes) → take (length xs + n) (xs ++ ys) ≡ xs ++ take n ys
take_past n [] ys = let e : 0 + n ≡ n = omega arith in ap (λ k. take k ys) e
take_past n (x ∷ xs) ys =
    let e : suc (length xs) + n ≡ suc (length xs + n) = omega arith in
    rw e (ap (λ y. x ∷ y) (take_past n xs ys))

pub take_within : (n : ℕ) (xs ys : Bytes) → n ≤ length xs → take n (xs ++ ys) ≡ take n xs
take_within zero xs ys h = refl
take_within (suc n) [] ys h = absurd (omega (arith, h))
take_within (suc n) (x ∷ xs) ys h = ap (λ y. x ∷ y) (take_within n xs ys (omega (arith, h)))

-- What stands in memory up to the `n`th byte of a store.
pub take-store :
    (at n : ℕ) (x m : Bytes)
    → at ≤ length m
    → n ≤ length x
    → take (at + n) (store at x m) ≡ take at m ++ take n x
take-store at n x m h w =
    let e : at + n ≡ length (take at m) + n = omega (arith, h, length-take at m) in
    ap (λ k. take k (store at x m)) e
    ∙ take_past n (take at m) (x ++ drop (at + length x) m)
    ∙ ap (λ y. take at m ++ y) (take_within n x (drop (at + length x) m) w)

take_snoc : (n : ℕ) (y : Word) → n < length y → (b : Bool) × (take (suc n) y ≡ take n y ++ (b ∷ []))
take_snoc n [] h = absurd (omega (arith, h))
take_snoc zero (a ∷ y) h = (a, refl)
take_snoc (suc n) (a ∷ y) h =
    let (b, e) = take_snoc n y (omega (arith, h)) in (b, ap (λ z. a ∷ z) e)

-- One of the four stores.
module _ (mask : Word) (half : Bytes) (from : ℕ) (inside : from + 16 ≤ length mask)
    (w : length half ≡ 16) where
  sixteen : Word
  sixteen = take 16 (drop from mask)

  length-compacted : length (compacted mask half from) ≡ 16
  unfolding compacted
  length-compacted =
      length-permute half (compact_lut (take 15 (drop from mask)))
      ∙ row_length (take 15 (drop from mask))
          (omega (arith, length-take 15 (drop from mask), length-drop from mask, inside))

  take-compacted : take (16 - ones_count sixteen) (compacted mask half from) ≡ keep sixteen half
  unfolding compacted sixteen
  take-compacted =
      let k = take 15 (drop from mask) in
      let n : length k ≡ 15 =
        omega (arith, length-take 15 (drop from mask), length-drop from mask, inside) in
      let (b, e) = take_snoc 15 (drop from mask) (omega (arith, length-drop from mask, inside)) in
      let (z, p) = permute-compact_lut k half n w in
      ap (λ s. take (16 - ones_count s) (compacted mask half from)) e
      ∙ ap (take (16 - ones_count (k ++ (b ∷ [])))) p
      ∙ ap (λ l. take (suc l - ones_count (k ++ (b ∷ []))) (keep (k ++ (false ∷ [])) half ++ z))
          (sym n)
      ∙ take-keep k b half z (w ∙ ap suc (sym n))
      ∙ ap (λ s. keep s half) (sym e)

  -- It leaves the bytes that are kept behind those that were there.
  pub put :
      (at : ℕ) (m : Bytes)
      → at + 16 ≤ length m
      → take
          (at + (16 - ones_count (take 16 (drop from mask))))
          (store at (compacted mask half from) m)
        ≡ take at m ++ keep (take 16 (drop from mask)) half
  unfolding sixteen
  put at m h =
      take-store at (16 - ones_count sixteen) (compacted mask half from) m (omega (arith, h))
        (omega (arith, length-compacted))
      ∙ ap (λ y. take at m ++ y) take-compacted

  pub length-put :
      (at : ℕ) (m : Bytes)
      → at + 16 ≤ length m
      → length (store at (compacted mask half from) m) ≡ length m
  length-put at m h =
      length-store at (compacted mask half from) m (omega (arith, h, length-compacted))
