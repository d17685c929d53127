-- ===== src/ReadBuffer/Feed/Reading.antt =====
-- readBuffer.go, `readMore`: what it does to the unread bytes.
use rapidyenc.Base.{ℕ, ◌+◌, ◌-◌, ◌≤◌, ◌⊎◌, inl, inr, some, ◌++◌, ◌≡◌, refl, ap, ◌∙◌, arith, length}
use rapidyenc.ReadBuffer.{ReadBuffer, window, ensure_write_space, store}
use rapidyenc.ReadBuffer.Window.{IsValid, store-window}
use rapidyenc.ReadBuffer.Space.{IsFull, Makes, grown_len, ensure_write_space_lem}
use rapidyenc.ReadBuffer.Feed.{Reader, More, buffer_full, as_error, read_more}

module _ (s : Reader) where
  -- A read fills the slice that it is given with the bytes that it read and those that it leaves.
  abbrev pub IsFilling : Type 0
  IsFilling = (r : s.R) (n : ℕ) → length (s.read r n).0 + length (s.scratch r n) ≡ n

  -- What a read into `n` free bytes behind the unread ones leaves.
  pub record Receives (rb : ReadBuffer) (r : s.R) (n : ℕ) (m : More s) : Type 0 where
    pub some_room : 1 ≤ n
    pub follows : window m.rb ≡ window rb ++ (s.read r n).0
    pub valid : IsValid m.rb
    pub free : m.rb.stop + n ≡ length m.rb.buf + length (s.read r n).0
    pub sized :
        length m.rb.buf ≡ length rb.buf
        ⊎ (rb.stop ≡ length rb.buf) × (length m.rb.buf ≡ grown_len (length rb.buf))
    pub reader : m.reader ≡ (s.read r n).2
    pub error : m.error ≡ as_error s (s.read r n).1

  read_into-Receives :
      (rb : ReadBuffer) (r : s.R) (rb' : ReadBuffer)
      → IsFilling
      → ensure_write_space rb ≡ some rb'
      → Makes rb rb'
      → Receives rb r (length rb'.buf - rb'.stop) (read_more s rb r)
  unfolding read_more store
  read_into-Receives rb r rb' fills e m =
      let n = length rb'.buf - rb'.stop in
      let (w, l, v) =
        store-window rb' (s.read r n).0 (s.scratch r n) m.valid
          (omega (arith, fills r n, m.room)) in
      rw e (record {
        some_room = omega (arith, m.room);
        follows = w ∙ ap (λ x. x ++ (s.read r n).0) m.kept;
        valid = v;
        free = omega (arith, l, m.room);
        sized = rw l m.sized;
        reader = refl;
        error = refl;
      })

  -- `readMore` on a valid buffer, for a reader that fills the slice that it is given with the bytes
  -- that it read and with any others behind them. It reads into a free space of at least one byte, and
  -- then the unread bytes are the old ones with those of the reader behind them, and the reader and its
  -- error are passed on. The slice keeps its length, or it was full and has the grown length. Or it
  -- does not read, reports a full buffer, and changes nothing: the unread bytes reach the end of a
  -- slice of at least 8 MiB and no read bytes can be cleared away in front of them.
  pub read_more-window :
      (rb : ReadBuffer) (r : s.R)
      → IsFilling
      → IsValid rb
      → (IsFull rb × (read_more s rb r ≡ record { rb = rb; reader = r; error = some buffer_full }))
        ⊎ (n : ℕ) × Receives rb r n (read_more s rb r)
  unfolding read_more
  read_more-window rb r fills v = elim (ensure_write_space_lem rb v) [
    | inl (fails, full) ↦ inl (full, rw fails refl)
    | inr (rb', e, m) ↦ inr (_, read_into-Receives rb r rb' fills e m)
  ]
