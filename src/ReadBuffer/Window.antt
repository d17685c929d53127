-- ===== src/ReadBuffer/Window.antt =====
-- readBuffer.go: what the methods do to the unread bytes, which are all that a caller sees.
use rapidyenc.Base.{
  ℕ, zero, suc, ◌+◌, ◌-◌, ◌≤◌, inl, inr, [], ◌∷◌, ◌++◌, ◌≡◌, refl, sym, ap, ◌∙◌, arith, Bytes,
  length, take, drop, leb, ◌==◌, Bool-cases, leb→le, leb-lt, length-append, length-take,
  length-drop, take-length-append, drop-append_le, drop-add, drop-all, take-all,
}
use rapidyenc.ReadBuffer.{ReadBuffer, window, advance, copy, store}

-- The unread bytes lie in the buffer.
pub record IsValid (rb : ReadBuffer) : Type 0 where
  pub ordered : rb.start ≤ rb.stop
  pub inside : rb.stop ≤ length rb.buf

drop-take : (n m : ℕ) (xs : Bytes) → drop n (take m xs) ≡ take (m - n) (drop n xs)
drop-take zero m xs = let e : m ≡ m - 0 = omega arith in ap (λ k. take k xs) e
drop-take (suc n) zero xs =
    let e : 0 ≡ 0 - suc n = omega arith in ap (λ k. take k (drop (suc n) xs)) e
drop-take (suc n) (suc m) [] = drop-take_nil (suc m - suc n)
  where
    drop-take_nil : (k : ℕ) → [] ≡ take {A = ℕ} k []
    drop-take_nil zero = refl
    drop-take_nil (suc k) = refl
drop-take (suc n) (suc m) (x ∷ xs) =
    let e : m - n ≡ suc m - suc n = omega arith in drop-take n m xs ∙ ap (λ k. take k (drop n xs)) e

take-append_add : (n : ℕ) (xs ys : Bytes) → take (length xs + n) (xs ++ ys) ≡ xs ++ take n ys
take-append_add n [] ys = let e : 0 + n ≡ n = omega arith in ap (λ k. take k ys) e
take-append_add n (x ∷ xs) ys =
    let e : suc (length xs) + n ≡ suc (length xs + n) = omega arith in
    rw e (ap (◌∷◌ x) (take-append_add n xs ys))

length-window : (rb : ReadBuffer) → IsValid rb → length (window rb) ≡ rb.stop - rb.start
length-window rb v = omega (
  arith,
  v.ordered,
  v.inside,
  length-take (rb.stop - rb.start) (drop rb.start rb.buf),
  length-drop rb.start rb.buf,
)

-- The unread bytes moved to the front of a slice that can hold them.
unfoldable pub moved : ReadBuffer → Bytes → ReadBuffer
moved rb dst = record { buf = copy dst (window rb); start = 0; stop = rb.stop - rb.start }

length-copy : (dst src : Bytes) → length src ≤ length dst → length (copy dst src) ≡ length dst
length-copy dst src h = omega (
  arith,
  h,
  length-append (take (length dst) src) (drop (length src) dst),
  length-take (length dst) src,
  length-drop (length src) dst,
)

pub window-moved :
    (rb : ReadBuffer) (dst : Bytes)
    → IsValid rb
    → rb.stop - rb.start ≤ length dst
    → (window (moved rb dst) ≡ window rb) × (length (moved rb dst).buf ≡ length dst)
unfolding moved
window-moved rb dst v h =
    let k = length-window rb v in
    let fits : length (window rb) ≤ length dst = omega (arith, k, h) in
    (
      (let n : rb.stop - rb.start - 0 ≡ length (window rb) = omega (arith, k) in
          let t = take-all (length dst) (window rb) fits in
          ap (λ m. take m (copy dst (window rb))) n
          ∙ ap (λ w. take (length (window rb)) (w ++ drop (length (window rb)) dst)) t
          ∙ take-length-append (window rb) (drop (length (window rb)) dst)),
      length-copy dst (window rb) fits,
    )

-- What a read puts behind the unread bytes is unread behind them, whatever it leaves in the rest of
-- the slice, where it fills the slice with both.
pub store-window :
    (rb : ReadBuffer) (got tail : Bytes)
    → IsValid rb
    → rb.stop + (length got + length tail) ≡ length rb.buf
    → (window (store rb got tail) ≡ window rb ++ got)
      × (length (store rb got tail).buf ≡ length rb.buf)
      × IsValid (store rb got tail)
unfolding store
store-window rb got tail v h =
    let l = length-take rb.stop rb.buf in
    let k = length-window rb v in
    let same_length : length (take rb.stop rb.buf ++ (got ++ tail)) ≡ length rb.buf = omega (
      arith,
      h,
      v.inside,
      l,
      length-append (take rb.stop rb.buf) (got ++ tail),
      length-append got tail,
    ) in
    let n : rb.stop + length got - rb.start ≡ length (window rb) + length got =
      omega (arith, k, v.ordered) in
    let front : drop rb.start (take rb.stop rb.buf ++ (got ++ tail)) ≡ window rb ++ (got ++ tail) =
      drop-append_le rb.start (take rb.stop rb.buf) (got ++ tail)
        (omega (arith, l, v.ordered, v.inside))
      ∙ ap (λ w. w ++ (got ++ tail)) (drop-take rb.start rb.stop rb.buf) in
    (
      rw (front, n)
          (take-append_add (length got) (window rb) (got ++ tail)
            ∙ ap (λ w. window rb ++ w) (take-length-append got tail)),
      same_length,
      record { ordered = omega (arith, v.ordered); inside = omega (arith, h, same_length) },
    )

-- `advance` drops just the bytes that were taken from the unread ones, which may be more than there
-- are.
pub advance-window :
    (rb : ReadBuffer) (n : ℕ)
    → IsValid rb
    → (window (advance rb n) ≡ drop n (window rb)) × IsValid (advance rb n)
unfolding advance
advance-window rb n v = elim (Bool-cases (n == 0)) [
  | inl nothing ↦ let e : n ≡ 0 = ground arith in rw (nothing, e) (refl, v)
  | inr some_taken ↦ elim (Bool-cases (leb rb.stop (rb.start + n))) [
    | inl all_taken ↦
        let k : length (window rb) ≤ n = omega (arith, length-window rb v, leb→le _ _ all_taken) in
        rw (some_taken, all_taken)
          (sym (drop-all n (window rb) k), record { ordered = omega arith; inside = omega arith })
    | inr more ↦
        let h = leb-lt _ _ more in
        let e : rb.stop - rb.start - n ≡ rb.stop - (rb.start + n) = omega (arith, h) in
        rw (some_taken, more)
          (
            rw
                (
                  drop-take n (rb.stop - rb.start) (drop rb.start rb.buf),
                  e,
                  drop-add rb.start n rb.buf,
                )
                refl,
            record { ordered = omega (arith, h); inside = v.inside },
          )
  ]
]
