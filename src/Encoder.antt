-- ===== src/Encoder.antt =====
-- encoder_generic.go: the tables and `encodeGeneric`. A call walks `src` once, so the unread bytes
-- `src[pos:]` stand for `pos`, and `dest[:write]` is the list of the bytes written. `dest` is as long
-- as `maxLength` says, and `Writer.Bounds` shows that the output fits. The tables are their defining
-- functions `escape` and `escaped`, by which `init` fills them.
pub mod Reference
pub mod Tables
pub mod Refine
pub mod Lines
pub mod RoundTrip
pub mod Columns
pub mod Blanks
pub mod Ending
mod Tests
use Prim.Native.Nat.{bit_or}
use rapidyenc.Base.{
  ℕ, suc, zero, ◌+◌, ◌-◌, ◌*◌, ◌/◌, ◌%◌, ◌^◌, Bool, true, false, Option, none, some, [], ◌∷◌, ◌++◌,
  ◌&&◌, ◌||◌, not, Bytes, length, take, drop, sub_byte, add_byte, ltb, leb, ◌==◌, if◌then◌else◌,
  Outcome, ret, panic, stuck, ◌>>=◌,
}

-- `escape(n)`: the byte for `n` where it stands inside a line, or 0 if it wants an escape.
unfoldable pub escape : ℕ → ℕ
escape n =
    if n == 214 || n == b'\r' + 214 || n == b'\n' + 214 || n == b'=' - 42 then 0 else (n + 42) % 256

-- `escaped(n)`: '=' and the escaped byte as a little-endian uint16, or 0 if `n` needs none even at
-- the start or the end of a line. `&` binds tighter than `+` in Go.
unfoldable pub escaped : ℕ → ℕ
escaped n =
    if n == 214
      || n == 214 + b'\r'
      || n == 214 + b'\n'
      || n == b'=' - 42
      || n == 214 + b'\t'
      || n == 214 + b' '
      || n == b'.' - 42
    then bit_or b'=' ((n + 42 + 64) % 2 ^ 16 * 2 ^ 8 % 2 ^ 16)
    else 0

-- `binary.LittleEndian.PutUint16` and `PutUint32`.
abbrev pub put_u16 : ℕ → Bytes
put_u16 x = x % 256 ∷ x / 256 % 256 ∷ []

abbrev pub put_u32 : ℕ → Bytes
put_u32 x = x % 256 ∷ x / 256 % 256 ∷ x / 2 ^ 16 % 256 ∷ x / 2 ^ 24 % 256 ∷ []

-- Inside a line.
unfoldable pub mid_char : ℕ → Bytes
unfolding escape escaped
mid_char c = if escape c == 0 then put_u16 (escaped c) else escape c ∷ []

-- The first byte of a call at column 0.
unfoldable pub first_char : ℕ → Bytes
unfolding escaped
first_char c = if escaped c == 0 then add_byte c 42 ∷ [] else put_u16 (escaped c)

-- The last byte of a line.
unfoldable pub last_char : ℕ → Bytes
unfolding escaped
last_char c =
    if not (escaped c == 0) && not (c == b'.' - 42) then put_u16 (escaped c) else add_byte c 42 ∷ []

-- A line end and the first byte of the next line: four bytes are stored, and `write` moves by three
-- where the byte is not escaped.
unfoldable pub line_char : ℕ → Bytes
unfolding escaped
line_char c =
    if escaped c == 0
    then take 3 (put_u32 (bit_or (bit_or b'\r' (b'\n' * 2 ^ 8)) (add_byte c 42 * 2 ^ 16)))
    else put_u32 (bit_or (bit_or b'\r' (b'\n' * 2 ^ 8)) (escaped c * 2 ^ 16))

-- The variables of the loops: `src[pos:]`, `col`, `dest[:write]`.
pub record Encoding : Type 0 where
  pub rest : Bytes
  pub col : ℕ
  pub out : Bytes

abbrev pub mid_chars : Bytes → Bytes
mid_chars [] = []
mid_chars (c ∷ cs) = mid_char c ++ mid_chars cs

-- How a part of the outer loop ends: at the label `end`, or with bytes left to read.
pub data Turn : Type 0 where
  ended : ℕ → Bytes → Turn
  more : ℕ → Bytes → ℕ → Bytes → Turn

-- `if pos >= length` and on to the label `end`, or else on with what is left.
abbrev pub turn_at : Bytes → ℕ → Bytes → Turn
turn_at [] col out = ended col out
turn_at (c ∷ r) col out = more c r col out

abbrev pub then_more : (ℕ → Bytes → ℕ → Bytes → Turn) → Turn → Turn
then_more f (ended col out) = ended col out
then_more f (more c r col out) = f c r col out

module _ (line : ℕ) where
  -- `for pos+8 < length && lineSize-col-1 > 8`: eight bytes at once. Beside the variables it returns
  -- what `pos`, `col` and `write` were before the last batch, if there was one (`sp >= 0`).
  pub batches : Bytes → ℕ → Bytes → Option Encoding → Encoding × Option Encoding
  batches (c0 ∷ c1 ∷ c2 ∷ c3 ∷ c4 ∷ c5 ∷ c6 ∷ c7 ∷ c8 ∷ r) col out sp =
      let src = c0 ∷ c1 ∷ c2 ∷ c3 ∷ c4 ∷ c5 ∷ c6 ∷ c7 ∷ c8 ∷ r in
      let written = mid_chars (c0 ∷ c1 ∷ c2 ∷ c3 ∷ c4 ∷ c5 ∷ c6 ∷ c7 ∷ []) in
      let next =
        batches (c8 ∷ r) (col + length written) (out ++ written)
          (some (record { rest = src; col = col; out = out })) in
      if ltb (col + 9) line then next else (record { rest = src; col = col; out = out }, sp)
  batches src col out sp = (record { rest = src; col = col; out = out }, sp)

  -- `if sp >= 0 && col >= lineSize-1`: take the last batch back.
  pub roll_back : Encoding × Option Encoding → Encoding
  roll_back (e, none) = e
  roll_back (e, some before) =
      if leb line (e.col + 1)
      then record {
        rest = before.rest;
        col = e.col - (length e.out - length before.out);
        out = take (length before.out) e.out;
      }
      else e

  -- `for col < lineSize-1`, at the byte `c` with `r` behind it.
  pub mid_loop : ℕ → Bytes → ℕ → Bytes → Turn
  mid_loop c [] col out =
      if ltb (col + 1) line
      then ended (col + length (mid_char c)) (out ++ mid_char c)
      else more c [] col out
  mid_loop c (d ∷ r) col out =
      let next = mid_loop d r (col + length (mid_char c)) (out ++ mid_char c) in
      if ltb (col + 1) line then next else more c (d ∷ r) col out

  -- The line end and the byte behind it; `col` starts again.
  pub break_line : ℕ → Bytes → ℕ → Bytes → Turn
  break_line c r col out = turn_at r (if escaped c == 0 then 1 else 2) (out ++ line_char c)

  -- Behind `mid_loop`: `if col < lineSize`, which leaves `col` as it is, and the line end.
  pub finish_line : ℕ → Bytes → ℕ → Bytes → Turn
  finish_line c r col out =
      if ltb col line
      then then_more break_line (turn_at r col (out ++ last_char c))
      else break_line c r col out

  -- One round of `for pos < length`.
  pub round : ℕ → Bytes → ℕ → Bytes → Turn
  unfolding escaped batches roll_back mid_loop break_line finish_line
  round c r col out =
      let e = roll_back (batches (c ∷ r) col out none) in
      then_more finish_line (then_more mid_loop (turn_at e.rest e.col e.out))

  -- Every round takes a byte, so fuel for each byte is enough: see `Refine`.
  pub rounds : ℕ → Turn → Outcome (ℕ × Bytes)
  rounds fuel (ended col out) = ret (col, out)
  rounds zero (more c r col out) = stuck
  rounds (suc fuel) (more c r col out) = rounds fuel (round c r col out)

abbrev pub get_last? : Bytes → Option ℕ
get_last? [] = none
get_last? (c ∷ []) = some c
get_last? (c ∷ d ∷ r) = get_last? (d ∷ r)

-- Behind the label `end`, with `doEnd`: a tab or a space at the very end is escaped. The last byte is
-- given beside the column and the bytes written.
unfoldable pub escape_at : ℕ → Bytes → Option ℕ → Outcome (ℕ × Bytes)
escape_at col out none = panic
escape_at col out (some lc) =
    if lc == b'\t' || lc == b' '
    then ret (col + 1, take (length out - 1) out ++ (b'=' ∷ add_byte lc 64 ∷ []))
    else ret (col, out)

unfoldable pub escape_last : ℕ × Bytes → Outcome (ℕ × Bytes)
unfolding escape_at
escape_last (col, out) = escape_at col out (get_last? out)

-- The loops, from the column and the bytes behind the first byte of the call.
pub encode_loop : ℕ → ℕ → Bytes → Outcome (ℕ × Bytes)
encode_loop line zero [] = panic
encode_loop line zero (c ∷ r) =
    rounds line (length r) (turn_at r (if escaped c == 0 then 1 else 2) (first_char c))
encode_loop line (suc col) src = rounds line (length src) (turn_at src (suc col) [])

-- `encodeGeneric(lineSize, colOffset, src, dest, doEnd)`: the new `*colOffset`, and `dest[:write]`.
unfoldable pub encode_generic : ℕ → ℕ → Bytes → Bool → Outcome (ℕ × Bytes)
unfolding encode_loop rounds round escape_last mid_char first_char last_char line_char
encode_generic line col src do_end = do
  r ← encode_loop line col src
  if do_end then escape_last r else ret r
