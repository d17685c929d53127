-- ===== src/Simd/Decode/Avx2/Search.antt =====
-- The special bytes of a block by the table, and the search of line ends.
use Prim.Native.Nat.{min}
use rapidyenc.Base.{
  ℕ, zero, suc, ◌%◌, ◌≤◌, ◌<◌, ◌≡◌, refl, sym, ap, ◌∙◌, arith, Bool, true, false, not, ◌&&◌, ◌||◌,
  ◌∷◌, ◌++◌, Bytes, length, length-drop, drop, replicate, ◌==◌, ltb, if◌then◌else◌, ltb→lt, ltb-le,
  Bool-cases, inl, inr,
}
use rapidyenc.Go.Word64.{Word, xor}
use rapidyenc.Go.Archsimd.{lane, load32, broadcast}
use rapidyenc.Simd.Decode.Avx2.Each.{each, skip, skip-drop, each_same, each-append, take-each}
use rapidyenc.Simd.Decode.Avx2.Words.{or_false}
use rapidyenc.Simd.Decode.Avx2.LineEnds.{specials}
use rapidyenc.Simd.Decode.Avx2.Marks.{min_mask_for}
use rapidyenc.Simd.Decode.Avx2.Tables.{special_lut, special_lut_lane}
use rapidyenc.Simd.Decode.Avx2.Lanes.{is_special}

-- A byte against the table, which is read at the lesser of the byte and `m`.
abbrev by_table : ℕ → ℕ → Bool
by_table m c = c == (if ltb (min c m) 128 then lane (min c m % 16) special_lut_lane else 0)

module _ (f g : ℕ → Bool) where
  abbrev agree_below : ℕ → Bool
  agree_below zero = true
  agree_below (suc n) = not (xor (f n) (g n)) && agree_below n

  agree_below-≡ : (n : ℕ) → agree_below n ≡ true → (c : ℕ) → c < n → f c ≡ g c
  agree_below-≡ zero e c h = absurd (omega (arith, h))
  agree_below-≡ (suc n) e c h =
      let rest : agree_below n ≡ true = ground arith in
      let here : f n ≡ g n = ground arith in
      elim (Bool-cases (c == n)) [
        | inl same ↦ let e : c ≡ n = ground arith in rw e here
        | inr other ↦ agree_below-≡ n rest c (ground arith)
      ]

large : (c : ℕ) → 46 ≤ c → by_table 46 c ≡ is_special c
large c h = let m : min c 46 ≡ 46 = omega (arith, h) in rw m (ground arith)

by_table-is_special : (c : ℕ) → by_table 46 c ≡ is_special c
by_table-is_special c = elim (Bool-cases (ltb c 46)) [
  | inl low ↦ agree_below-≡ (by_table 46) is_special 46 refl c (ltb→lt c 46 low)
  | inr high ↦ large c (ltb-le c 46 high)
]

-- The bytes that are special, whether for what they are or for where they stand.
abbrev pub marks : Bool → Bool → Bytes → Word
marks d0 d1 p =
    (is_special (lane 0 p) || d0)
    ∷ (is_special (lane 0 (drop 1 p)) || d1)
    ∷ each 62 (λ v. is_special (lane 0 v)) (skip 2 p)

-- A byte that stands where a stuffed dot is awaited is one.
by_table-dot :
    (d : Bool) (c : ℕ)
    → (d ≡ true → (c == b'.') ≡ true)
    → by_table (if d then 0 else 46) c ≡ (is_special c || d)
by_table-dot true c h =
    let m : min c 0 ≡ 0 = omega arith in let e = h refl in rw m (ground (arith, e))
by_table-dot false c h = by_table-is_special c ∙ sym (or_false (is_special c))

specials-by_table :
    (m0 m1 : ℕ) (p : Bytes)
    → specials (each 32 (lane 0) p) (m0 ∷ m1 ∷ replicate 30 46)
      ≡ by_table m0 (lane 0 p)
        ∷ by_table m1 (lane 0 (drop 1 p))
        ∷ each 30 (λ v. by_table 46 (lane 0 v)) (skip 2 p)
unfolding specials special_lut
specials-by_table m0 m1 p = refl

specials-special :
    (d0 d1 : Bool) (x p : Bytes)
    → x ≡ each 32 (lane 0) p
    → (d0 ≡ true → (lane 0 p == b'.') ≡ true)
    → (d1 ≡ true → (lane 0 (drop 1 p) == b'.') ≡ true)
    → specials x (min_mask_for d0 d1)
      ≡ (is_special (lane 0 p) || d0)
        ∷ (is_special (lane 0 (drop 1 p)) || d1)
        ∷ each 30 (λ v. is_special (lane 0 v)) (skip 2 p)
specials-special d0 d1 x p e h0 h1 =
    ap (λ y. specials y (min_mask_for d0 d1)) e
    ∙ specials-by_table (if d0 then 0 else 46) (if d1 then 0 else 46) p
    ∙ ap
        (λ b.
          b
          ∷ by_table (if d1 then 0 else 46) (lane 0 (drop 1 p))
          ∷ each 30 (λ v. by_table 46 (lane 0 v)) (skip 2 p))
        (by_table-dot d0 (lane 0 p) h0)
    ∙ ap (λ b. (is_special (lane 0 p) || d0) ∷ b ∷ each 30 (λ v. by_table 46 (lane 0 v)) (skip 2 p))
        (by_table-dot d1 (lane 0 (drop 1 p)) h1)
    ∙ ap (λ y. (is_special (lane 0 p) || d0) ∷ (is_special (lane 0 (drop 1 p)) || d1) ∷ y)
        (each_same (λ v. by_table 46 (lane 0 v)) (λ v. is_special (lane 0 v)) 30 (skip 2 p)
          (λ v. by_table-is_special (lane 0 v)))

no_dot : (c : ℕ) → false ≡ true → (c == b'.') ≡ true
no_dot c h = absurd (ground (arith, h))

-- The masks `cmpA` and `cmpB`.
pub specials-marks :
    (d0 d1 : Bool) (p : Bytes)
    → 64 ≤ length p
    → (d0 ≡ true → (lane 0 p == b'.') ≡ true)
    → (d1 ≡ true → (lane 0 (drop 1 p) == b'.') ≡ true)
    → specials (load32 p) (min_mask_for d0 d1) ++ specials (load32 (drop 32 p)) (broadcast b'.')
      ≡ marks d0 d1 p
specials-marks d0 d1 p long h0 h1 =
    let q = drop 32 p in
    let special : Bytes → Bool = λ v. is_special (lane 0 v) in
    let lower = specials-special d0 d1 (load32 p) p (take-each 32 p (omega (arith, long))) h0 h1 in
    let upper =
      specials-special false false (load32 q) q
        (take-each 32 q (omega (arith, long, length-drop 32 p))) (no_dot _) (no_dot _)
      ∙ ap (λ b. b ∷ (special (drop 1 q) || false) ∷ each 30 special (skip 2 q))
          (or_false (special q))
      ∙ ap (λ b. special q ∷ b ∷ each 30 special (skip 2 q)) (or_false (special (drop 1 q))) in
    let there : q ≡ drop 30 (skip 2 p) = sym (skip-drop 32 p) ∙ skip-drop 30 (skip 2 p) in
    ap (λ x. x ++ specials (load32 q) (broadcast b'.')) lower
    ∙ ap (λ x. (special p || d0) ∷ (special (drop 1 p) || d1) ∷ (each 30 special (skip 2 p) ++ x))
        (upper ∙ ap (each 32 special) there)
    ∙ ap (λ x. (special p || d0) ∷ (special (drop 1 p) || d1) ∷ x)
        (each-append special 30 32 (skip 2 p))
