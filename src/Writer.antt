-- ===== src/Writer.antt =====
-- encoder.go: the `Encoder`, an io.WriteCloser that writes yEnc to another io.Writer, and the choice
-- of encoder_scalar.go, by which `encodeIncremental` is `encodeGeneric`. The writer below it is a
-- parameter, `Sink`: what it holds after the calls made of it, and whether a call failed. The mutex
-- makes each method one step, so it has no part in the model. `lineLength` is not negative.
pub mod Bounds
pub mod Stream
pub mod Series
pub mod Output
pub mod RoundTrip
mod Tests
use Prim.Native.Nat.{max}
use mathlib.Core.List.{foldl}
use rapidyenc.Base.{
  ℕ, ◌+◌, ◌-◌, ◌*◌, ◌/◌, ◌^◌, Bool, true, false, not, ◌||◌, Option, none, some, List, [], ◌∷◌, ◌++◌,
  Bytes, codes, length, take, add_byte, ltb, ◌==◌, if◌then◌else◌, Outcome, ret, panic, ◌>>=◌,
}
use rapidyenc.Base.Int.{ℤ, pos}
use rapidyenc.Go.Int64.{add_int64, eq_ℤ}
use rapidyenc.Go.Strconv.{format_nat, format_int, format_hex8}
use rapidyenc.Go.Crc32.{update}
use rapidyenc.Encoder.{encode_generic, get_last?}
use rapidyenc.Meta.{Meta, MetaError, begin_of, end_of, validate}

-- An io.Writer: the state of the object, and `Write`, which gives the new state and an error.
pub record Sink : Type 1 where
  pub W : Type 0
  pub Failure : Type 0
  pub write : W → Bytes → W × Option Failure

-- The errors of the `Encoder`'s methods.
pub data Error (F : Type 0) : Type 0 where
  writer_nil : Error F
  sink : F → Error F
  invalid : MetaError → Error F
  part_size : ℤ → ℤ → Error F

-- `Encoder`; of `buf` only the length matters, and `endByte` holds one byte at the most.
pub record Encoder (W : Type 0) : Type 0 where
  pub w : Option W
  pub m : Meta
  pub h_written : Bool
  pub crc : ℕ
  pub line_length : ℕ
  pub raw : Bool
  pub column : ℕ
  pub processed : ℤ
  pub buf : ℕ
  pub end_byte : Bytes

-- `maxLength(length, lineLength)`; a division by 0 panics.
unfoldable pub max_length : ℕ → ℕ → Outcome ℕ
max_length n line =
    let most = n * 2 + 2 + 64 in
    if line == 128
    then ret (most + 2 * (n / 2 ^ 6))
    else if line == 0
    then panic
    else ret (most + 2 * (n * 2 / line))

-- encoder_scalar.go
abbrev pub encode_incremental : ℕ → ℕ → Bytes → Bool → Outcome (ℕ × Bytes)
encode_incremental = encode_generic

-- The text of the "=ybegin" and "=ypart" lines.
unfoldable pub header : Meta → ℕ → Bytes
header m line =
    codes "=ybegin part="
    ++ (format_int m.part_number
        ++ (codes " total="
            ++ (format_int m.total_parts
                ++ (codes " line="
                    ++ (format_nat line
                        ++ (codes " size="
                            ++ (format_int m.file_size
                                ++ (codes " name="
                                    ++ (m.file_name
                                        ++ (codes "\r\n=ypart begin="
                                            ++ (format_int (begin_of m)
                                                ++ (codes " end="
                                                    ++ (format_int (end_of m)
                                                        ++ codes "\r\n")))))))))))))

unfoldable pub trailer : Meta → ℕ → Bytes
trailer m crc =
    codes "\r\n=yend size="
    ++ (format_int m.part_size
        ++ (codes " part="
            ++ (format_int m.part_number
                ++ (codes " pcrc32=" ++ (format_hex8 crc ++ codes "\r\n")))))

module _ (s : Sink) where
  -- What a step of a method leaves, and the error with which it returns.
  abbrev pub Step : Type 0
  Step = Outcome (Encoder s.W × Option (Error s.Failure))

  -- `if err != nil { return err }` between two steps.
  abbrev pub before : Step → (Encoder s.W → Step) → Step
  before (ret (e, none)) k = k e
  before (ret (e, some err)) k = ret (e, some err)
  before panic k = panic
  before Outcome.stuck k = Outcome.stuck

  abbrev pub sent : Encoder s.W → s.W × Option s.Failure → Step
  sent e (w', none) = ret (record e { w = some w' }, none)
  sent e (w', some f) = ret (record e { w = some w' }, some (sink f))

  -- `e.w.Write(p)` through the writer `w`.
  abbrev pub send_to : Encoder s.W → Bytes → Option s.W → Step
  send_to e p none = panic
  send_to e p (some w) = sent e (s.write w p)

  abbrev pub send : Encoder s.W → Bytes → Step
  send e p = send_to e p e.w

  -- `writeHeader`
  pub write_header : Encoder s.W → Step
  write_header e =
      if e.h_written
      then ret (e, none)
      else send (record e { h_written = true }) (header e.m e.line_length)

  -- In `Write`: the blank that the last call kept back.
  pub write_end_byte : Encoder s.W → Step
  write_end_byte e =
      if ltb 0 (length e.end_byte)
      then before (send e e.end_byte) (λ e'. ret (record e' { end_byte = [] }, none))
      else ret (e, none)

  -- In `Write`: send what was encoded, but for a blank at its end; the last byte is given beside it.
  pub write_encoded : Encoder s.W → Bytes → Option ℕ → Step
  write_encoded e encoded none = ret (e, none)
  write_encoded e encoded (some b) =
      if b == b'\t' || b == b' '
      then (let kept = record e { end_byte = e.end_byte ++ (b ∷ []) } in
          let front = take (length encoded - 1) encoded in
          if ltb 0 (length front) then send kept front else ret (kept, none))
      else send e encoded

  -- In `Write`: `if len(p) > 0`.
  pub write_data : Encoder s.W → Bytes → Step
  write_data e [] = ret (e, none)
  write_data e (c ∷ p) = do
    size ← max_length (length (c ∷ p)) e.line_length
    (column, encoded) ← encode_incremental e.line_length e.column (c ∷ p) false
    write_encoded
        (record e {
          processed = add_int64 e.processed (pos (length (c ∷ p)));
          buf = max e.buf size;
          column = column;
        })
        encoded (get_last? encoded)

  -- `Write`: the number that it returns is `len(p)`, or 0 with an error.
  unfoldable pub write : Encoder s.W → Bytes → Step
  unfolding write_header write_end_byte write_encoded write_data
  write e p = write_through (record e { crc = update e.crc p }) e.w
    where
      write_through : Encoder s.W → Option s.W → Step
      write_through e' none = ret (e, some writer_nil)
      write_through e' (some w) =
          before (if e'.raw then ret (e', none) else write_header e')
            (λ e1. before (write_end_byte e1) (λ e2. write_data e2 p))

  -- In `Close`: the blank that was kept back is escaped, as nothing follows it.
  pub close_end_byte : Encoder s.W → Bytes → Step
  close_end_byte e [] = ret (e, none)
  close_end_byte e (b ∷ r) = send e (b'=' ∷ add_byte b 64 ∷ [])

  pub close_trailer : Encoder s.W → Step
  close_trailer e =
      if e.raw
      then ret (e, none)
      else before (send e (trailer e.m e.crc)) (λ e'.
        if eq_ℤ e'.processed e'.m.part_size
        then ret (e', none)
        else ret (e', some (part_size e'.m.part_size e'.processed)))

  -- `defer func() { e.w = nil }()`: the writer that `e` had is given beside it.
  abbrev pub release : Step → Outcome (Encoder s.W × Option s.W × Option (Error s.Failure))
  release (ret (e, err)) = ret (record e { w = none }, e.w, err)
  release panic = panic
  release Outcome.stuck = Outcome.stuck

  -- `Close`
  unfoldable pub close : Encoder s.W → Outcome (Encoder s.W × Option s.W × Option (Error s.Failure))
  unfolding close_end_byte close_trailer
  close e = close_through e.w
    where
      close_through : Option s.W → Outcome (Encoder s.W × Option s.W × Option (Error s.Failure))
      close_through none = ret (e, none, some writer_nil)
      close_through (some w) = release (before (close_end_byte e e.end_byte) close_trailer)

  -- `Reset`
  unfoldable pub reset : Encoder s.W → Option s.W → Meta → Encoder s.W × Option (Error s.Failure)
  reset e w meta = elim (if e.raw then none else validate meta) [
    | some bad ↦ (e, some (invalid bad))
    | none ↦ (
      record e {
        w = w;
        m = meta;
        h_written = false;
        crc = 0;
        end_byte = [];
        column = 0;
        processed = pos 0;
      },
      none,
    )
  ]

-- The options of `NewEncoder`.
pub data EncoderOption : Type 0 where
  with_line_length : ℕ → EncoderOption
  with_raw : EncoderOption

module _ (s : Sink) where
  abbrev pub apply : Encoder s.W → EncoderOption → Encoder s.W
  apply e (with_line_length n) = record e { line_length = n }
  apply e with_raw = record e { raw = true }

  -- `NewEncoder`: an error takes the place of the encoder.
  unfoldable pub new_encoder :
      Option s.W → Meta → List EncoderOption → Encoder s.W × Option (Error s.Failure)
  unfolding reset
  new_encoder w m opts = reset s (foldl (apply) blank opts) w m
    where
      blank : Encoder s.W
      blank = record {
        w = none;
        m = record {
          file_name = [];
          file_size = pos 0;
          part_number = pos 0;
          total_parts = pos 0;
          offset = pos 0;
          part_size = pos 0;
        };
        h_written = false;
        crc = 0;
        line_length = 128;
        raw = false;
        column = 0;
        processed = pos 0;
        buf = 0;
        end_byte = [];
      }
