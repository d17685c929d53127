-- ===== src/ReadBuffer.antt =====
-- readBuffer.go, and `Next` of decoder.go with the options of `NewDecoder`. The io.Reader is a
-- parameter: `Read` on a slice of `n` bytes gives the bytes that it stored, an error and the reader,
-- and may use the slice behind these bytes as scratch space, whose bytes it then gives as well.
pub mod Window
pub mod Space
mod Tests
pub mod Feed
use Prim.Native.Nat.{max}
use rapidyenc.Base.{
  ℕ, zero, suc, ◌+◌, ◌-◌, ◌*◌, Bool, true, false, not, ◌&&◌, Option, none, some, [], ◌∷◌, ◌++◌,
  Bytes, length, take, drop, replicate, ltb, leb, ◌==◌, if◌then◌else◌, Outcome, ret, panic,
}

abbrev pub default_read_buf_size : ℕ
default_read_buf_size = 32 * 1024

abbrev pub max_read_buf_size : ℕ
max_read_buf_size = 8 * 1024 * 1024

-- `readBuffer`
pub record ReadBuffer : Type 0 where
  pub buf : Bytes
  pub start : ℕ
  pub stop : ℕ

-- `init`, with the size of the buffer that it makes.
unfoldable pub init_with : ℕ → ReadBuffer → ReadBuffer
init_with size rb = if length rb.buf == 0 then record rb { buf = replicate size 0 } else rb

unfoldable pub init : ReadBuffer → ReadBuffer
unfolding init_with
init = init_with default_read_buf_size

-- `window`
abbrev pub window : ReadBuffer → Bytes
window rb = take (rb.stop - rb.start) (drop rb.start rb.buf)

-- `advance` for a count that is not negative
unfoldable pub advance : ReadBuffer → ℕ → ReadBuffer
advance rb consumed =
    if consumed == 0
    then rb
    else if leb rb.stop (rb.start + consumed)
    then record rb { start = 0; stop = 0 }
    else record rb { start = rb.start + consumed }

-- `copy(dst, src)` at the front of `dst`
abbrev pub copy : Bytes → Bytes → Bytes
copy dst src = take (length dst) src ++ drop (length src) dst

-- `compact`
unfoldable pub compact : ReadBuffer → ReadBuffer
compact rb =
    if rb.start == 0
    then rb
    else if rb.start == rb.stop
    then rb
    else record { buf = copy rb.buf (window rb); start = 0; stop = rb.stop - rb.start }

-- The growth at the end of `ensureWriteSpace`; none is the error that the buffer is too large.
unfoldable pub enlarge : ReadBuffer → Option ReadBuffer
enlarge rb =
    let cur = if length rb.buf == 0 then default_read_buf_size else length rb.buf in
    let new_len = if ltb max_read_buf_size (cur * 2) then max_read_buf_size else cur * 2 in
    if leb new_len (length rb.buf)
    then none
    else some (record {
      buf = copy (replicate new_len 0) (window rb);
      start = 0;
      stop = rb.stop - rb.start;
    })

-- `ensureWriteSpace`
unfoldable pub ensure_write_space : ReadBuffer → Option ReadBuffer
unfolding compact enlarge
ensure_write_space rb =
    if ltb rb.stop (length rb.buf)
    then some rb
    else if ltb 0 rb.start
    then (let rb' = compact rb in if ltb rb'.stop (length rb'.buf) then some rb' else enlarge rb')
    else enlarge rb

-- What the read stored at `rb.buf[rb.end:]` and left in the slice behind that, and `rb.end += n`.
unfoldable pub store : ReadBuffer → Bytes → Bytes → ReadBuffer
store rb got left = record rb {
  buf = take rb.stop rb.buf ++ (got ++ left);
  stop = rb.stop + length got;
}
