-- ===== src/Simd/Decode/Avx2/Each.antt =====
-- Vectors as what a function gives at each place of a window, told from the bytes that stand there.
use rapidyenc.Base.{
  ℕ, zero, suc, ◌+◌, ◌≤◌, ◌<◌, ◌≡◌, refl, sym, ap, ◌∙◌, arith, Bool, true, false, not, ◌||◌, List,
  [], ◌∷◌, ◌++◌, Bytes, length, length-drop, Bool-cases, inl, inr, take, drop, replicate, ◌==◌,
}
use rapidyenc.Go.Word64.{zip_with, is_zero}
use rapidyenc.Go.Archsimd.{equal_lanes, lane}

abbrev pub each {ℓ} : {A : Type ℓ} → ℕ → (Bytes → A) → Bytes → List A
each zero f w = []
each (suc n) f w = f w ∷ each n f (drop 1 w)

abbrev pub any_of : ℕ → (Bytes → Bool) → Bytes → Bool
any_of zero f w = false
any_of (suc n) f w = f w || any_of n f (drop 1 w)

pub drop-suc : (n : ℕ) (w : Bytes) → drop n (drop 1 w) ≡ drop (suc n) w
drop-suc zero w = refl
drop-suc (suc n) [] = refl
drop-suc (suc n) (a ∷ w) = refl

pub drop_after : (n : ℕ) (w : Bytes) → drop 1 (drop n w) ≡ drop n (drop 1 w)
drop_after zero w = refl
drop_after (suc n) [] = refl
drop_after (suc zero) (a ∷ w) = refl
drop_after (suc (suc n)) (a ∷ []) = refl
drop_after (suc (suc n)) (a ∷ b ∷ w) = drop_after (suc n) (b ∷ w)

pub lane-drop : (n : ℕ) (w : Bytes) → lane 0 (drop n w) ≡ lane n w
lane-drop zero w = refl
lane-drop (suc n) [] = refl
lane-drop (suc n) (a ∷ w) = lane-drop n w

module _ {ℓ} {A : Type ℓ} where
  pub each_same :
      (f g : Bytes → A) (n : ℕ) (w : Bytes) → ((v : Bytes) → f v ≡ g v) → each n f w ≡ each n g w
  each_same f g zero w h = refl
  each_same f g (suc n) w h = rw (h w) (ap (λ x. g w ∷ x) (each_same f g n (drop 1 w) h))

  pub each-append :
      (f : Bytes → A) (n m : ℕ) (w : Bytes) → each n f w ++ each m f (drop n w) ≡ each (n + m) f w
  each-append f zero m w = let sum : m ≡ 0 + m = omega arith in ap (λ k. each k f w) sum
  each-append f (suc n) m w =
      let sum : suc (n + m) ≡ suc n + m = omega arith in
      rw (sym (drop-suc n w))
        (ap (λ x. f w ∷ x) (each-append f n m (drop 1 w)) ∙ ap (λ k. each k f w) sum)

  pub each-drop :
      (f : Bytes → A) (k n : ℕ) (w : Bytes) → each n f (drop k w) ≡ each n (λ v. f (drop k v)) w
  each-drop f k zero w = refl
  each-drop f k (suc n) w =
      rw (drop_after k w) (ap (λ x. f (drop k w) ∷ x) (each-drop f k n (drop 1 w)))

  pub zip_with-each :
      (h : A → A → A) (f g : Bytes → A) (n : ℕ) (w : Bytes)
      → zip_with h (each n f w) (each n g w) ≡ each n (λ v. h (f v) (g v)) w
  zip_with-each h f g zero w = refl
  zip_with-each h f g (suc n) w = ap (λ x. h (f w) (g w) ∷ x) (zip_with-each h f g n (drop 1 w))

  pub length-each : (f : Bytes → A) (n : ℕ) (w : Bytes) → length (each n f w) ≡ n
  length-each f zero w = refl
  length-each f (suc n) w = ap suc (length-each f n (drop 1 w))

pub is_zero-each :
    (f : Bytes → Bool) (n : ℕ) (w : Bytes) → is_zero (each n f w) ≡ not (any_of n f w)
is_zero-each f zero w = refl
is_zero-each f (suc n) w = rw (is_zero-each f n (drop 1 w)) (ground arith)

equal_lanes-each_0 :
    (b n : ℕ) (w : Bytes)
    → n ≤ length w
    → equal_lanes (take n w) (replicate n b) ≡ each n (λ v. lane 0 v == b) w
equal_lanes-each_0 b zero w h = refl
equal_lanes-each_0 b (suc n) [] h = absurd (omega (arith, h))
equal_lanes-each_0 b (suc n) (a ∷ w) h =
    ap (λ x. (a == b) ∷ x) (equal_lanes-each_0 b n w (omega (arith, h)))

-- A comparison with the bytes `k` places on.
pub equal_lanes-each :
    (k b n : ℕ) (w : Bytes)
    → n + k ≤ length w
    → equal_lanes (take n (drop k w)) (replicate n b) ≡ each n (λ v. lane k v == b) w
equal_lanes-each k b n w h =
    equal_lanes-each_0 b n (drop k w) (omega (arith, length-drop k w))
    ∙ each-drop (λ v. lane 0 v == b) k n w
    ∙ each_same (λ v. lane 0 (drop k v) == b) (λ v. lane k v == b) n w
        (λ v. ap (λ x. x == b) (lane-drop k v))

-- A prefix, byte by byte.
pub take-each : (n : ℕ) (w : Bytes) → n ≤ length w → take n w ≡ each n (lane 0) w
take-each zero w h = refl
take-each (suc n) [] h = absurd (omega (arith, h))
take-each (suc n) (a ∷ w) h = ap (λ x. a ∷ x) (take-each n w (omega (arith, h)))

-- Where `f` is, `g` is.
pub any_of-any_of :
    (f g : Bytes → Bool) (n : ℕ) (w : Bytes)
    → ((v : Bytes) → f v ≡ true → g v ≡ true)
    → any_of n f w ≡ true
    → any_of n g w ≡ true
any_of-any_of f g zero w h e = absurd (ground arith)
any_of-any_of f g (suc n) w h e = elim (Bool-cases (f w)) [
  | inl here ↦ rw (h w here) refl
  | inr there ↦ rw (any_of-any_of f g n (drop 1 w) h (rw there at e)) (ground arith)
]

-- Where `f` is and `g` is nowhere, `f` is nowhere.
pub none_of-none_of :
    (f g : Bytes → Bool) (n : ℕ) (w : Bytes)
    → ((v : Bytes) → f v ≡ true → g v ≡ true)
    → any_of n g w ≡ false
    → any_of n f w ≡ false
none_of-none_of f g n w h e = elim (Bool-cases (any_of n f w)) [
  | inl there ↦ absurd (let t = any_of-any_of f g n w h there in ground (arith, t, e))
  | inr none ↦ none
]

pub any_of-or :
    (f g : Bytes → Bool) (n : ℕ) (w : Bytes)
    → any_of n (λ v. f v || g v) w ≡ (any_of n f w || any_of n g w)
any_of-or f g zero w = refl
any_of-or f g (suc n) w = rw (any_of-or f g n (drop 1 w)) (ground arith)

pub any_of-same :
    (f g : Bytes → Bool) (n : ℕ) (w : Bytes)
    → ((v : Bytes) → f v ≡ g v)
    → any_of n f w ≡ any_of n g w
any_of-same f g zero w h = refl
any_of-same f g (suc n) w h = rw (h w, any_of-same f g n (drop 1 w) h) refl

pub each-none :
    (f : Bytes → Bool) (n : ℕ) (w : Bytes) → any_of n f w ≡ false → each n f w ≡ replicate n false
each-none f zero w e = refl
each-none f (suc n) w e =
    let here : f w ≡ false = ground arith in
    let there : any_of n f (drop 1 w) ≡ false = ground arith in
    rw (here, each-none f n (drop 1 w) there) refl

-- The window `n` places on, by single steps.
abbrev pub skip {ℓ} : {A : Type ℓ} → ℕ → List A → List A
skip zero w = w
skip (suc n) w = skip n (drop 1 w)

pub skip-drop : (n : ℕ) (w : Bytes) → skip n w ≡ drop n w
skip-drop zero w = refl
skip-drop (suc n) w = skip-drop n (drop 1 w) ∙ drop-suc n w

pub none_at :
    (f : Bytes → Bool) (k n : ℕ) (w : Bytes) → k < n → any_of n f w ≡ false → f (skip k w) ≡ false
none_at f k zero w below e = absurd (omega (arith, below))
none_at f zero (suc n) w below e = ground arith
none_at f (suc k) (suc n) w below e =
    let there : any_of n f (drop 1 w) ≡ false = ground arith in
    none_at f k n (drop 1 w) (omega (arith, below)) there
