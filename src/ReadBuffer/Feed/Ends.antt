-- ===== src/ReadBuffer/Feed/Ends.antt =====
-- readBuffer.go, `feedUntilDone`: it ends, for a reader that comes to an error.
use rapidyenc.Base.{
  ℕ, zero, suc, ◌-◌, ◌<◌, ◌≡◌, refl, arith, Bool, true, false, ◌&&◌, Option, none, some, Bytes,
  length, ltb, ◌==◌, if◌then◌else◌, Option-cases, inl, inr, Finishes, Outcome, ret, panic, stuck,
  ◌>>=◌,
}
use rapidyenc.Base.Int.{ℤ}
use rapidyenc.ReadBuffer.{ReadBuffer, init, window, advance, ensure_write_space, store}
use rapidyenc.Response.{Response, Decoder}
use rapidyenc.Response.Decode.{Fed, MetaError, feed}
use rapidyenc.Response.Decode.Ends.{decode-Finishes}
use rapidyenc.ReadBuffer.Feed.{
  ReadError, Reader, read_more, stored, checked, on_turn, at_error, Turn, again, ended,
  read_or_return, advance_by, is_progress, after_feed, feed_round, feed_loop, feed_until_done,
}

feed-Finishes : (d : Decoder) (r : Response) (buf : Bytes) → Finishes (feed d r buf)
unfolding feed
feed-Finishes d r buf = ground (arith, decode-Finishes d r buf)

module _ (s : Reader) where
  -- What holds of the reader behind a call that gives no error.
  abbrev pub Behind : (s.R → Type 0) → Bytes × Option ReadError × s.R → Type 0
  Behind P (got, none, r) = P r
  Behind P (got, some e, r) = Unit

  -- The reader gives an error within so many calls.
  abbrev pub Stops : ℕ → s.R → Type 0
  Stops zero r = ⊥
  Stops (suc k) r = (n : ℕ) → Behind (Stops k) (s.read r n)

  abbrev Goes : (ReadBuffer → s.R → Response → Type 0) → Outcome (Turn s) → Type 0
  Goes P (ret (again rb r a)) = P rb r a
  Goes P (ret (ended e)) = Unit
  Goes P panic = Unit
  Goes P stuck = ⊥

  if-Goes :
      (P : ReadBuffer → s.R → Response → Type 0) (b : Bool) (x y : Outcome (Turn s))
      → (b ≡ true → Goes P x)
      → (b ≡ false → Goes P y)
      → Goes P (if b then x else y)
  if-Goes P true x y hx hy = hx refl
  if-Goes P false x y hx hy = hy refl

  module _ (P : ReadBuffer → s.R → Response → Type 0) (k : ℕ) (a : Response)
      (cont : ReadBuffer → s.R → Outcome (Turn s))
      (next : (rb : ReadBuffer) (r : s.R) → Stops k r → Goes P (cont rb r)) where
    stored-Goes :
        (rb : ReadBuffer) (left : Bytes) (x : Bytes × Option ReadError × s.R)
        → Behind (Stops k) x
        → Goes P (checked s a cont (stored s rb left x) (stored s rb left x).error)
    stored-Goes rb left (got, none, r) h = next (store rb got left) r h
    stored-Goes rb left (got, some e, r) h = tt

    read_or_return-Goes :
        (rb : ReadBuffer) (r : s.R) → Stops (suc k) r → Goes P (read_or_return s rb r a cont)
    unfolding read_or_return read_more
    read_or_return-Goes rb r h = elim (Option-cases (ensure_write_space rb)) [
      | inl full ↦ rw full tt
      | inr (rb', room) ↦
          let n = length rb'.buf - rb'.stop in
          rw room (stored-Goes rb' (s.scratch r n) (s.read r n) (h _))
    ]

  Behind-map :
      (P Q : s.R → Type 0) (x : Bytes × Option ReadError × s.R)
      → ((r : s.R) → P r → Q r)
      → Behind P x
      → Behind Q x
  Behind-map P Q (got, none, r) f h = f r h
  Behind-map P Q (got, some e, r) f h = tt

  Stops-suc : (k : ℕ) (r : s.R) → Stops k r → Stops (suc k) r
  Stops-suc zero r h = absurd h
  Stops-suc (suc k) r h = λ n. Behind-map (Stops k) (Stops (suc k)) (s.read r n) (Stops-suc k) (h n)

  module _ (d : Decoder) where
    -- The loop ends, with so much fuel.
    abbrev Ends : ReadBuffer → s.R → Response → Type 0
    Ends rb r a = (fuel : ℕ) × Finishes (feed_loop s d fuel rb r a)

    turn-Ends :
        (o : Outcome (Turn s))
        → Goes Ends o
        → (fuel : ℕ) × Finishes (o >>= on_turn s (feed_loop s d fuel))
    turn-Ends (ret (again rb r a)) h = h
    turn-Ends (ret (ended e)) h = (0, tt)
    turn-Ends panic h = (0, tt)
    turn-Ends stuck h = absurd h

    round-Ends :
        (rb : ReadBuffer) (r : s.R) (a : Response) → Goes Ends (feed_round s d rb r a) → Ends rb r a
    unfolding feed_loop
    round-Ends rb r a h = let (fuel, e) = turn-Ends _ h in (suc fuel, e)

    unread : ReadBuffer → ℕ
    unread rb = rb.stop - rb.start

    -- With so many calls of the reader to come, the loop ends from every state.
    EndsAll : ℕ → Type 0
    EndsAll k = (rb : ReadBuffer) (r : s.R) (a : Response) → Stops k r → Ends rb r a

    progress : ReadBuffer → ℤ → Bool
    progress rb n = is_progress s n && ltb (advance_by s rb n).start (advance_by s rb n).stop

    progress-unread :
        (rb : ReadBuffer) (n : ℤ) → progress rb n ≡ true → unread (advance_by s rb n) < unread rb
    unfolding progress unread advance
    progress-unread rb n h = ground arith

    module _ (k : ℕ) (later : EndsAll k) where
      at_error-Goes :
          (rb : ReadBuffer) (r : s.R) (f : Fed) (e : Option MetaError)
          → Stops (suc k) r
          → (progress rb f.consumed ≡ true → Ends (advance_by s rb f.consumed) r f.response)
          → Goes Ends (at_error s (advance_by s rb f.consumed) r f e)
      unfolding at_error progress EndsAll
      at_error-Goes rb r f (some e) h go = tt
      at_error-Goes rb r f none h go =
          let rb' = advance_by s rb f.consumed in
          if-Goes Ends f.done (ret (ended _)) _ (λ done. tt)
            (λ more.
              if-Goes Ends (progress rb f.consumed) (ret (again rb' r f.response)) _ go (λ off.
                read_or_return-Goes Ends k f.response (λ q r'. ret (again q r' f.response))
                  (λ q r' l. later q r' f.response l) _ r h))

      fed-Goes :
          (rb : ReadBuffer) (r : s.R) (o : Outcome Fed)
          → Finishes o
          → Stops (suc k) r
          → ((f : Fed)
              → progress rb f.consumed ≡ true
              → Ends (advance_by s rb f.consumed) r f.response)
          → Goes Ends (o >>= after_feed s rb r)
      unfolding after_feed
      fed-Goes rb r (ret f) t h go = at_error-Goes rb r f f.error h (go f)
      fed-Goes rb r panic t h go = tt
      fed-Goes rb r stuck t h go = t

      feed_round-Goes :
          (rb : ReadBuffer) (r : s.R) (a : Response)
          → Stops (suc k) r
          → ((q : ReadBuffer) (b : Response) → unread q < unread rb → Ends q r b)
          → Goes Ends (feed_round s d rb r a)
      unfolding feed_round EndsAll
      feed_round-Goes rb r a h less =
          let next =
            fed-Goes rb r (feed d a (window rb)) (feed-Finishes d a (window rb)) h
              (λ f on. less _ f.response (progress-unread rb f.consumed on)) in
          let after_read : ReadBuffer → s.R → Outcome (Turn s) =
            λ q r'. feed d a (window q) >>= after_feed s q r' in
          if-Goes Ends (rb.start == rb.stop) (read_or_return s _ r a after_read) _
            (λ empty.
              read_or_return-Goes Ends k a after_read
                (λ q r' l.
                  fed-Goes q r' (feed d a (window q)) (feed-Finishes d a (window q))
                    (Stops-suc k r' l) (λ f on. later _ r' f.response l))
                _ r h)
            (λ some_left. next)

      all_unread :
          (n : ℕ) (rb : ReadBuffer) (r : s.R) (a : Response)
          → unread rb < n
          → Stops (suc k) r
          → Ends rb r a
      all_unread zero rb r a small h = absurd (omega arith)
      all_unread (suc n) rb r a small h =
          round-Ends rb r a
            (feed_round-Goes rb r a h (λ q b l. all_unread n q r b (omega (arith, l)) h))

    all_Stops : (k : ℕ) → EndsAll k
    unfolding EndsAll
    all_Stops zero rb r a h = absurd h
    all_Stops (suc k) rb r a h = all_unread k (all_Stops k) (suc (unread rb)) rb r a (omega arith) h

    -- For a reader that gives an error within a bounded number of calls, `feedUntilDone` comes to an
    -- end on every buffer and every response after finitely many rounds: it returns, or it panics.
    pub feed_until_done-Finishes :
        (k : ℕ) (rb : ReadBuffer) (r : s.R) (a : Response)
        → Stops k r
        → (fuel : ℕ) × Finishes (feed_until_done s d fuel rb r a)
    unfolding feed_until_done EndsAll
    feed_until_done-Finishes k rb r a h = all_Stops k (init rb) r a h
