-- ===== src/ReadBuffer/Space.antt =====
-- readBuffer.go, `ensureWriteSpace` with `compact` and the growth of the slice.
use Prim.Native.Nat.{min}
use rapidyenc.Base.{
  ℕ, ◌-◌, ◌*◌, ◌≤◌, ◌<◌, ◌⊎◌, inl, inr, none, some, ◌≡◌, ◌≢◌, refl, ◌∙◌, arith, Bytes, length,
  replicate, ltb, leb, ◌==◌, if◌then◌else◌, Bool-cases, lt→ltb, leb→le, leb-lt, length-replicate,
}
use rapidyenc.ReadBuffer.{
  ReadBuffer, default_read_buf_size, max_read_buf_size, window, compact, enlarge,
  ensure_write_space,
}
use rapidyenc.ReadBuffer.Window.{IsValid, moved, window-moved}

-- The length of a slice that has grown: twice what it was, where an empty one counts for the default,
-- and at most the limit.
abbrev pub grown_len : ℕ → ℕ
grown_len n = min (2 * (if n == 0 then default_read_buf_size else n)) max_read_buf_size

-- What making room does: the unread bytes stay, and there is a byte free behind them, in a slice of the
-- same length or, where the unread bytes stood at its end, of the grown one.
pub record Makes (rb rb' : ReadBuffer) : Type 0 where
  pub valid : IsValid rb'
  pub room : rb'.stop < length rb'.buf
  pub kept : window rb' ≡ window rb
  pub sized :
      length rb'.buf ≡ length rb.buf
      ⊎ (rb.stop ≡ length rb.buf) × (length rb'.buf ≡ grown_len (length rb.buf))

-- A slice that is full, at its limit, and cannot be cleared by moving bytes.
pub record IsFull (rb : ReadBuffer) : Type 0 where
  pub at_stop : rb.stop ≡ length rb.buf
  pub limit : max_read_buf_size ≤ length rb.buf
  pub stuck : rb.start ≡ 0 ⊎ rb.start ≡ rb.stop

moved-Makes :
    (rb : ReadBuffer) (dst : Bytes)
    → IsValid rb
    → rb.stop - rb.start < length dst
    → length dst ≡ length rb.buf
      ⊎ (rb.stop ≡ length rb.buf) × (length dst ≡ grown_len (length rb.buf))
    → Makes rb (moved rb dst)
unfolding moved
moved-Makes rb dst v h b =
    let (w, l) = window-moved rb dst v (omega (arith, h)) in
    record {
      valid = record { ordered = omega arith; inside = omega (arith, h, l) };
      room = omega (arith, h, l);
      kept = w;
      sized = rw l b;
    }

-- The length that a grown slice has.
new_len : ℕ → ℕ
new_len n =
    let cur = if n == 0 then default_read_buf_size else n in
    if ltb max_read_buf_size (cur * 2) then max_read_buf_size else cur * 2

new_len-grown_len : (n : ℕ) → new_len n ≡ grown_len n
unfolding new_len
new_len-grown_len n = ground arith

new_len_limit : (n : ℕ) → new_len n ≤ n → max_read_buf_size ≤ n
unfolding new_len
new_len_limit n h = ground arith

enlarge-cases :
    (rb : ReadBuffer)
    → IsValid rb
    → rb.stop ≡ length rb.buf
    → ((enlarge rb ≡ none) × (max_read_buf_size ≤ length rb.buf))
      ⊎ (rb' : ReadBuffer) × (enlarge rb ≡ some rb') × Makes rb rb'
unfolding enlarge new_len moved
enlarge-cases rb v full = elim (Bool-cases (leb (new_len (length rb.buf)) (length rb.buf))) [
  | inl small ↦ inl (rw small refl, new_len_limit (length rb.buf) (leb→le _ _ small))
  | inr grows ↦
      let l = length-replicate {A = ℕ} (new_len (length rb.buf)) 0 in
      let k = new_len-grown_len (length rb.buf) in
      inr (
        moved rb (replicate (new_len (length rb.buf)) 0),
        rw grows refl,
        moved-Makes rb _ v (omega (arith, l, full, v.inside, leb-lt _ _ grows)) (inr (full, l ∙ k)),
      )
]

compact-cases :
    (rb : ReadBuffer)
    → rb.start ≢ 0
    → ((rb.start ≡ rb.stop) × (compact rb ≡ rb))
      ⊎ (rb.start ≢ rb.stop) × (compact rb ≡ moved rb rb.buf)
unfolding compact moved
compact-cases rb h = ground arith

filled :
    (rb : ReadBuffer)
    → IsValid rb
    → rb.stop ≡ length rb.buf
    → rb.start ≡ 0 ⊎ rb.start ≡ rb.stop
    → ((enlarge rb ≡ none) × IsFull rb)
      ⊎ (rb' : ReadBuffer) × (enlarge rb ≡ some rb') × Makes rb rb'
filled rb v full s = elim (enlarge-cases rb v full) [
  | inl (fails, limit) ↦ inl (fails, record { at_stop = full; limit = limit; stuck = s })
  | inr grown ↦ inr grown
]

-- `ensureWriteSpace` keeps the unread bytes in all its branches and leaves room for a byte behind them.
-- The slice keeps its length, or it grows where the unread bytes reach its end: to twice the length,
-- or twice the default from an empty one, but not above 8 MiB. It fails only where they reach the end
-- of a slice of that size or more and no read bytes can be cleared away in front of them.
pub ensure_write_space_lem :
    (rb : ReadBuffer)
    → IsValid rb
    → ((ensure_write_space rb ≡ none) × IsFull rb)
      ⊎ (rb' : ReadBuffer) × (ensure_write_space rb ≡ some rb') × Makes rb rb'
unfolding ensure_write_space compact moved
ensure_write_space_lem rb v = elim (Bool-cases (ltb rb.stop (length rb.buf))) [
  | inl free ↦
      inr
        (rb, rw free refl, record { valid = v; room = ground arith; kept = refl; sized = inl refl })
  | inr full ↦
      let at_stop : rb.stop ≡ length rb.buf = ground arith in
      elim (Bool-cases (ltb 0 rb.start)) [
        | inr front ↦
            let s : rb.start ≡ 0 = ground arith in rw (full, front) (filled rb v at_stop (inl s))
        | inl read ↦
            let read_on : 0 < rb.start = ground arith in
            rw (full, read)
              (elim (compact-cases rb (ground arith)) [
                | inl (empty, same) ↦ rw (same, full) (filled rb v at_stop (inr empty))
                | inr (more, same) ↦
                    let w =
                      moved-Makes rb rb.buf v (omega (arith, v.inside, more, read_on)) (inl refl) in
                    inr (moved rb rb.buf, rw (same, lt→ltb _ _ w.room) refl, w)
              ])
      ]
]
