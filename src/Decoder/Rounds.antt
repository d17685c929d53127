-- ===== src/Decoder/Rounds.antt =====
-- The loop behind the label `done`: one round of it, and the two characters behind it, each as one
-- step that keeps what the automaton has still to say.
use rapidyenc.Base.{ℕ, ◌+◌, ◌*◌, ◌≤◌, ◌<◌, [], ◌∷◌, ◌++◌, ◌≡◌, arith, Bytes, length, length-append}
use rapidyenc.Decoder.{
  State, crlf, eq, cr, crlfdt, crlfdtcr, crlfeq, Cursor, plain, unescaped, loop_crlfdt, loop_round,
  two_chars, step_done, step_at, step,
}
use rapidyenc.Decoder.Automaton.{Result, read}
use rapidyenc.Decoder.Simulation.{
  drop-suc, rank, Room, Valid, Good, Good-crlfeq, Good-eq, Good-cr, Good-crlf, Good-crlfdt,
  Good-crlfdtcr, Good-loop_crlfeq, Good-loop_crlfdtcr, Good-last_char,
}

module _ (src more : Bytes) (v : Result) (dest_len : ℕ) (enough : length src ≤ dest_len) where
  abbrev cursor : ℕ → Bytes → Bytes → Cursor
  cursor p o r = record { rest = r; pos = p; out = o }

  Good-loop_crlfdt :
      (n p : ℕ) (o r : Bytes)
      → 3 * length r < n
      → length o < p
      → Valid src more v crlfdt (cursor p o r)
      → Good src more v n (loop_crlfdt dest_len (cursor p o r) r)
  unfolding loop_crlfdt read
  Good-loop_crlfdt n p o [] h slack w = ground arith
  Good-loop_crlfdt n p o (c ∷ r) h slack w = ground (
    arith,
    drop-suc p src w.here,
    Good-loop_crlfeq src more v dest_len (p + 1) o enough n r,
    Good-loop_crlfdtcr src more v dest_len (p + 1) o enough n r,
  )

  -- Three bytes at the start of a round.
  Good-loop_round :
      (p : ℕ) (o : Bytes) (c d e : ℕ) (r : Bytes)
      → Valid src more v State.none (cursor p o (c ∷ d ∷ e ∷ r))
      → Good src more v
          (3 * length (c ∷ d ∷ e ∷ r))
          (loop_round dest_len (cursor p o (c ∷ d ∷ e ∷ r)) c d e r)
  unfolding loop_round read
  Good-loop_round p o c d e r w = ground (
    arith,
    drop-suc p src w.here,
    drop-suc (p + 1) src {c = d} {r = e ∷ r},
    drop-suc (p + 1 + 1) src {c = e} {r = r},
    length-append o (unescaped d ∷ []),
    length-append o (plain c ∷ []),
    Good-loop_crlfeq src more v dest_len (p + 1 + 1 + 1) o enough (3 * length (c ∷ d ∷ e ∷ r)) r,
    Good-loop_crlfdt (3 * length (c ∷ d ∷ e ∷ r)) (p + 1 + 1 + 1) o r,
  )

  Good-two_chars :
      (p : ℕ) (o : Bytes) (c d : ℕ)
      → Valid src more v State.none (cursor p o (c ∷ d ∷ []))
      → Good src more v 6 (two_chars dest_len (cursor p o (c ∷ d ∷ [])) c d)
  unfolding two_chars read
  Good-two_chars p o c d w = ground (
    arith,
    drop-suc p src w.here,
    drop-suc (p + 1) src {c = d} {r = []},
    length-append o (unescaped d ∷ []),
    length-append o (plain c ∷ []),
    Good-last_char src more v dest_len (p + 1) o enough 6 (d ∷ []),
    Good-last_char src more v dest_len (p + 1) (o ++ (unescaped d ∷ [])) enough 6 (d ∷ []),
    Good-last_char src more v dest_len (p + 1 + 1) (o ++ (unescaped d ∷ [])) enough 6 [],
    Good-last_char src more v dest_len (p + 1) (o ++ (plain c ∷ [])) enough 6 (d ∷ []),
  )

  Good-step_done :
      (p : ℕ) (o r : Bytes)
      → Valid src more v State.none (cursor p o r)
      → Good src more v (3 * length r) (step_done dest_len (cursor p o r) r)
  unfolding step_done
  Good-step_done p o [] w = Good-last_char src more v dest_len p o enough 0 [] (omega arith) w
  Good-step_done p o (c ∷ []) w =
      Good-last_char src more v dest_len p o enough 3 (c ∷ []) (omega arith) w
  Good-step_done p o (c ∷ d ∷ []) w = Good-two_chars p o c d w
  Good-step_done p o (c ∷ d ∷ e ∷ r) w = Good-loop_round p o c d e r w

  -- The rank pays for the one goto that takes no byte.
  Good-step_at :
      (s : State) (p : ℕ) (o r : Bytes)
      → Room s r
      → Valid src more v s (cursor p o r)
      → Good src more v (3 * length r + rank s) (step_at dest_len s (cursor p o r) r)
  unfolding step_at
  Good-step_at State.none p o r h w =
      let e : 3 * length r + 0 ≡ 3 * length r = omega arith in rw e (Good-step_done p o r w)
  Good-step_at s p o [] h w = elim h [ ]
  Good-step_at crlfeq p o (c ∷ r) h w = Good-crlfeq src more v dest_len p o enough c r w
  Good-step_at eq p o (c ∷ r) h w = Good-eq src more v dest_len p o enough c r w
  Good-step_at cr p o (c ∷ r) h w = Good-cr src more v dest_len p o enough c r w
  Good-step_at crlf p o (c ∷ r) h w = Good-crlf src more v dest_len p o enough c r w
  Good-step_at crlfdt p o (c ∷ r) h w = Good-crlfdt src more v dest_len p o enough c r w
  Good-step_at crlfdtcr p o (c ∷ r) h w = Good-crlfdtcr src more v dest_len p o enough c r w

  pub Good-step :
      (s : State) (k : Cursor)
      → Room s k.rest
      → Valid src more v s k
      → Good src more v (3 * length k.rest + rank s) (step dest_len s k)
  unfolding step
  Good-step s k = Good-step_at s k.pos k.out k.rest
