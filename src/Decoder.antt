-- ===== src/Decoder.antt =====
-- decoder.go (`State`, `End`) and decoder_generic.go (`decodeGeneric`). The function is a web of
-- labels and gotos over `src[pos]` and `dest[write]`, with `dotUnstuffing` set. Here one step of
-- `step` runs from one label to the next `goto`, or through one round of the loop behind `done`. A
-- cursor holds the unread suffix `src[pos:]`, `pos`, and `dest[:write]`; `dest` and `src` do not
-- overlap. A read behind the end of `src` and a write behind the end of `dest` are panics.
pub mod Automaton
pub mod Simulation
pub mod Rounds
pub mod Refine
pub mod Progress
pub mod Output
mod Tests
use rapidyenc.Base.{
  ℕ, suc, zero, ◌+◌, ◌*◌, Bool, List, [], ◌∷◌, ◌++◌, ◌&&◌, not, Bytes, length, sub_byte, ltb, ◌==◌,
  if◌then◌else◌, Outcome, ret, panic, stuck, ◌>>=◌,
}

-- The characters before the next one: CR (\r), LF (\n), EQ (=), DT (.).
pub data State : Type 0 where
  crlf eq cr none crlfdt crlfdtcr crlfeq : State

pub data End : Type 0 where
  none control article : End

pub record Decoded : Type 0 where
  pub n_src : ℕ
  pub decoded : Bytes
  pub state : State
  pub ended : End

pub record Cursor : Type 0 where
  pub rest : Bytes
  pub pos : ℕ
  pub out : Bytes

-- Where a step leaves the machine: at a label with a cursor, or returned.
pub data Round : Type 0 where
  goto : State → Cursor → Round
  stop : Decoded → Round

-- `return pos, dest[:write], state, end, nil`
abbrev pub return_at : Cursor → State → End → Outcome Round
return_at k s e = ret (stop (record { n_src = k.pos; decoded = k.out; state = s; ended = e }))

-- `pos++`, with the byte `src[pos]` already taken off.
abbrev pub advance : Cursor → Bytes → Cursor
advance k rest = record k { rest = rest; pos = k.pos + 1 }

-- `dest[write] = b; write++`
abbrev pub write : ℕ → Cursor → ℕ → Outcome Cursor
write dest_len k b =
    if ltb (length k.out) dest_len then ret (record k { out = k.out ++ (b ∷ []) }) else panic

-- `if ok := checkEnd(s); ok { return ... }` before `goto s`
abbrev pub check_rest : State → Cursor → Bytes → Outcome Round
check_rest s k [] = return_at k s End.none
check_rest s k (c ∷ r) = ret (goto s k)

abbrev pub check_end : State → Cursor → Outcome Round
check_end s k = check_rest s k k.rest

-- `c - 42` and `c - 42 - 64`
abbrev pub plain : ℕ → ℕ
plain c = sub_byte c 42

abbrev pub unescaped : ℕ → ℕ
unescaped c = sub_byte (sub_byte c 42) 64

-- On to the next label, or back to the caller.
abbrev pub follow : (State → Cursor → Outcome Decoded) → Outcome Round → Outcome Decoded
follow more (ret (goto s k)) = more s k
follow more (ret (stop d)) = ret d
follow more panic = panic
follow more stuck = stuck

module _ (dest_len : ℕ) where
  -- From the label `StateCRLFEQ`; a byte other than `y` falls through to `StateEQ`.
  pub step_crlfeq : Cursor → Bytes → Outcome Round
  step_crlfeq k [] = panic
  step_crlfeq k (c ∷ r) =
      if c == b'y' then return_at (advance k r) State.none control else ret (goto eq k)

  pub step_eq : Cursor → Bytes → Outcome Round
  step_eq k [] = panic
  step_eq k (c ∷ r) = do
    k' ← write dest_len (advance k r) (unescaped c)
    if c == b'\r' then check_end cr k' else ret (goto State.none k')

  pub step_cr : Cursor → Bytes → Outcome Round
  step_cr k [] = panic
  step_cr k (c ∷ r) = if c == b'\n' then check_end crlf (advance k r) else ret (goto State.none k)

  pub step_crlf : Cursor → Bytes → Outcome Round
  step_crlf k [] = panic
  step_crlf k (c ∷ r) =
      if c == b'.'
      then check_end crlfdt (advance k r)
      else if c == b'='
      then check_end crlfeq (advance k r)
      else ret (goto State.none k)

  pub step_crlfdt : Cursor → Bytes → Outcome Round
  step_crlfdt k [] = panic
  step_crlfdt k (c ∷ r) =
      if c == b'\r'
      then check_end crlfdtcr (advance k r)
      else if c == b'='
      then check_end crlfeq (advance k r)
      else ret (goto State.none k)

  pub step_crlfdtcr : Cursor → Bytes → Outcome Round
  step_crlfdtcr k [] = panic
  step_crlfdtcr k (c ∷ r) =
      if c == b'\n' then return_at (advance k r) crlf article else ret (goto State.none k)

  -- In the loop, behind "\r\n=" or "\r\n.=": end the round at the byte that is examined next.
  pub loop_crlfeq : Cursor → Bytes → Outcome Round
  loop_crlfeq k [] = return_at k crlfeq End.none
  loop_crlfeq k (c ∷ r) = if c == b'y' then return_at (advance k r) State.none control else do
    k' ← write dest_len k (unescaped c)
    ret (goto State.none (if c == b'\r' then k' else advance k' r))

  -- In the loop, behind "\r\n.\r": `pos--` and the loop's `pos++` leave `pos` where it is.
  pub loop_crlfdtcr : Cursor → Bytes → Outcome Round
  loop_crlfdtcr k [] = return_at k crlfdtcr End.none
  loop_crlfdtcr k (c ∷ r) =
      if c == b'\n' then return_at (advance k r) crlf article else ret (goto State.none k)

  -- In the loop, behind "\r\n.".
  pub loop_crlfdt : Cursor → Bytes → Outcome Round
  loop_crlfdt k [] = return_at k crlfdt End.none
  loop_crlfdt k (c ∷ r) =
      if c == b'\r'
      then loop_crlfdtcr (advance k r) r
      else if c == b'='
      then loop_crlfeq (advance k r) r
      else ret (goto State.none k)

  -- One round of `for ; pos <= length-3; pos++` on the bytes `c`, `d`, `e` and those behind them.
  pub loop_round : Cursor → ℕ → ℕ → ℕ → Bytes → Outcome Round
  loop_round k c d e r =
      if c == b'\r'
      then (if d == b'\n' && e == b'.'
          then loop_crlfdt (advance (advance (advance k (d ∷ e ∷ r)) (e ∷ r)) r) r
          else if d == b'\n' && e == b'='
          then loop_crlfeq (advance (advance (advance k (d ∷ e ∷ r)) (e ∷ r)) r) r
          else ret (goto State.none (advance k (d ∷ e ∷ r))))
      else if c == b'\n'
      then ret (goto State.none (advance k (d ∷ e ∷ r)))
      else if c == b'='
      then (write dest_len (advance k (d ∷ e ∷ r)) (unescaped d) >>= λ k'.
          ret (goto State.none (if d == b'\r' then k' else advance k' (e ∷ r))))
      else do k' ← write dest_len (advance k (d ∷ e ∷ r)) (plain c); ret (goto State.none k')

  -- `if pos == length-1`, and the return behind it.
  pub last_char : Cursor → Bytes → Outcome Round
  last_char k [] = return_at k State.none End.none
  last_char k (c ∷ r) =
      if c == b'='
      then return_at (advance k r) eq End.none
      else if c == b'\r'
      then return_at (advance k r) cr End.none
      else if c == b'\n'
      then return_at (advance k r) State.none End.none
      else do k' ← write dest_len (advance k r) (plain c); return_at k' State.none End.none

  -- `if pos == length-2` on the bytes `c` and `d`.
  pub two_chars : Cursor → ℕ → ℕ → Outcome Round
  two_chars k c d =
      if c == b'\r' && d == b'\n'
      then return_at k crlf End.none
      else if c == b'\r'
      then last_char (advance k (d ∷ [])) (d ∷ [])
      else if c == b'\n'
      then last_char (advance k (d ∷ [])) (d ∷ [])
      else if c == b'='
      then (write dest_len (advance k (d ∷ [])) (unescaped d) >>= λ k'.
          if d == b'\r' then last_char k' (d ∷ []) else last_char (advance k' []) [])
      else do k' ← write dest_len (advance k (d ∷ [])) (plain c); last_char k' (d ∷ [])

  -- From the label `done`.
  pub step_done : Cursor → Bytes → Outcome Round
  step_done k (c ∷ d ∷ e ∷ r) = loop_round k c d e r
  step_done k (c ∷ d ∷ []) = two_chars k c d
  step_done k (c ∷ []) = last_char k (c ∷ [])
  step_done k [] = last_char k []

  pub step_at : State → Cursor → Bytes → Outcome Round
  step_at crlfeq k r = step_crlfeq k r
  step_at eq k r = step_eq k r
  step_at cr k r = step_cr k r
  step_at crlf k r = step_crlf k r
  step_at crlfdt k r = step_crlfdt k r
  step_at crlfdtcr k r = step_crlfdtcr k r
  step_at State.none k r = step_done k r

  -- The label `StateNone` is spelled `done` in the source.
  pub step : State → Cursor → Outcome Round
  step s k = step_at s k k.rest

  pub run : ℕ → State → Cursor → Outcome Decoded
  run zero s k = stuck
  run (suc fuel) s k = follow (run fuel) (step s k)

-- Three steps a byte are enough: see `Refine`.
abbrev pub enough : Bytes → ℕ
enough src = 3 * length src + 3

-- `decodeGeneric(dest, src, state)` with `dest_len = len(dest)`; its error is always nil.
unfoldable pub decode_generic : ℕ → Bytes → State → Outcome Decoded
unfolding run step step_at step_crlfeq step_eq step_cr step_crlf step_crlfdt step_crlfdtcr step_done
    loop_round loop_crlfeq loop_crlfdtcr loop_crlfdt two_chars last_char
decode_generic dest_len [] s = ret (record { n_src = 0; decoded = []; state = s; ended = End.none })
decode_generic dest_len (c ∷ r) s =
    run dest_len (enough (c ∷ r)) s (record { rest = c ∷ r; pos = 0; out = [] })
