-- ===== src/Response/Decode.antt =====
-- response.go, `decode`, `feed` and `metaError`.
pub mod Faults
pub mod Ends
pub mod Tracks
mod Tests
pub mod Checks
use rapidyenc.Base.{
  ℕ, zero, suc, ◌+◌, Bool, true, false, not, ◌&&◌, ◌||◌, Option, none, some, [], ◌∷◌, ◌++◌, Bytes,
  codes, length, take, drop, leb, ◌==◌, if◌then◌else◌, Outcome, ret, panic, stuck, ◌>>=◌,
}
use rapidyenc.Base.Int.{ℤ, pos, negsuc, ◌+ℤ◌}
use rapidyenc.Go.Int64.{add_int64, eq_ℤ, is_positive}
use rapidyenc.Go.ByteStrings.{equal, cut}
use rapidyenc.Go.Strconv.{parse_int}
use rapidyenc.Response.{Response, ResponseMeta, Format, unknown, yenc, uu, Decoder, is_multiline}
use rapidyenc.Response.Header.{process_yenc_header}
use rapidyenc.Response.Uu.{decode_uu}
use rapidyenc.Response.Detect.{detect_format}
use rapidyenc.Response.Yenc.{decode_yenc}

-- The errors of `metaError`.
pub data MetaError : Type 0 where
  data_missing no_trailer wrong_size crc_mismatch : MetaError

abbrev pub is_yenc : Format → Bool
is_yenc yenc = true
is_yenc f = false

abbrev pub is_unknown : Format → Bool
is_unknown unknown = true
is_unknown f = false

-- `metaError`
unfoldable pub meta_error : Response → Option MetaError
meta_error r =
    if not (is_yenc m.format)
    then none
    else if not r.has_begin
    then some data_missing
    else if not r.has_end
    then some no_trailer
    else if not r.has_part
          && is_positive m.meta.file_size
          && not (eq_ℤ m.meta.file_size m.bytes_produced)
        || r.has_part && not (eq_ℤ m.meta.part_size m.bytes_produced)
    then some wrong_size
    else if r.has_crc && not (m.expected_crc == m.crc)
    then some crc_mismatch
    else none
  where
    m : ResponseMeta
    m = r.metadata

-- `buf[n:]`
abbrev pub slice_from : Bytes → ℤ → Outcome Bytes
slice_from buf (pos n) = if leb n (length buf) then ret (drop n buf) else panic
slice_from buf (negsuc n) = panic

-- Where the loop over the lines goes on: with what it has read, the response and the rest of `buf`.
pub data LineStep : Type 0 where
  next : ℤ → Response → Bytes → LineStep
  leave : ℤ → Response → LineStep

-- The status line. `strconv.Atoi` leaves a value beside its error.
pub status_line : ℤ → Response → Bytes → Bytes → LineStep
unfolding is_multiline
status_line read r line buf = told (parse_int (take 3 line))
  where
    told : ℤ × Bool → LineStep
    told (code, ok) =
        let r' = record r { metadata = record r.metadata { message = line; status_code = code } } in
        if not ok || not (is_multiline code)
        then leave read (record r' { eof = true })
        else next read r' buf

-- `case FormatYenc`: a header line, with the body behind it if it is the last one.
pub yenc_line : Decoder → ℤ → Response → Bytes → Bytes → Outcome LineStep
yenc_line d read r line buf = begun (process_yenc_header r line)
  where
    begun : Response → Outcome LineStep
    begun q =
        if q.body
        then (do
          (n, q') ← decode_yenc d q buf
          buf' ← slice_from buf n
          ret (if q'.body then leave (read +ℤ n) q' else next (read +ℤ n) q' buf'))
        else ret (next read q buf)

-- `switch r.Metadata.Format`
pub by_format : Decoder → ℤ → Format → Response → Bytes → Bytes → Outcome LineStep
unfolding yenc_line
by_format d read unknown r line buf = ret (
    next read
      (record r { metadata = record r.metadata { lines = r.metadata.lines ++ (line ∷ []) } }) buf)
by_format d read yenc r line buf = yenc_line d read r line buf
by_format d read uu r line buf = ret (next read (decode_uu d r line) buf)

-- One round of the loop on a line, with `buf` behind it.
unfoldable pub on_line : Decoder → ℤ → Response → Bytes → Bytes → Outcome LineStep
unfolding status_line by_format ◌+ℤ◌
on_line d read r line buf =
    if equal line (codes ".")
    then ret (leave read (record r { eof = true }))
    else if is_unknown r.metadata.format
    then (if not d.status_line_consumed
          && eq_ℤ r.metadata.status_code (pos 0)
          && leb 3 (length line)
        then ret (status_line read r line buf)
        else (detect_format d r line >>= λ q. by_format d read q.metadata.format q line buf))
    else by_format d read r.metadata.format r line buf

-- How the loop goes on, given the rest of the loop.
abbrev pub then_step :
    (ℤ → Response → Bytes → Outcome (ℤ × Response)) → LineStep → Outcome (ℤ × Response)
then_step loop (next read r buf) = loop read r buf
then_step loop (leave read r) = ret (read, r)

-- The loop `for { bytes.Cut(buf, "\r\n") ... }`, at what `bytes.Cut` gives.
abbrev pub on_cut :
    Decoder
    → (ℤ → Response → Bytes → Outcome (ℤ × Response))
    → ℤ
    → Response
    → Option (Bytes × Bytes)
    → Outcome (ℤ × Response)
on_cut d loop read r none = ret (read, r)
on_cut d loop read r (some (line, rest)) =
    on_line d (read +ℤ pos (length line + 2)) r line rest >>= then_step loop

-- Every round takes a line end from `buf`, so fuel for each byte is enough: see `Ends`.
pub line_loop : Decoder → ℕ → ℤ → Response → Bytes → Outcome (ℤ × Response)
line_loop d zero read r buf = on_cut d (λ read' r' buf'. stuck) read r (cut buf (codes "\r\n"))
line_loop d (suc fuel) read r buf = on_cut d (line_loop d fuel) read r (cut buf (codes "\r\n"))

-- Behind the first `if` of `decode`.
pub decode_lines : Decoder → ℤ → Response → Bytes → Outcome (ℤ × Response)
unfolding line_loop
decode_lines d read r buf = if r.body then ret (read, r) else line_loop d (length buf) read r buf

-- `decode`, which returns no error.
unfoldable pub decode : Decoder → Response → Bytes → Outcome (ℤ × Response)
unfolding decode_lines
decode d r buf =
    if r.body && is_yenc r.metadata.format
    then (do
      (n, q) ← decode_yenc d r buf
      buf' ← slice_from buf n
      (if q.body then ret (n, q) else decode_lines d n q buf'))
    else decode_lines d (pos 0) r buf

pub record Fed : Type 0 where
  pub consumed : ℤ
  pub done : Bool
  pub error : Option MetaError
  pub response : Response

-- `feed`
unfoldable pub feed : Decoder → Response → Bytes → Outcome Fed
feed d r buf = do
  (n, q) ← decode d r buf
  let q' = record q {
    metadata = record q.metadata { bytes_consumed = add_int64 q.metadata.bytes_consumed n };
  }
  ret (
      if q'.eof
      then record { consumed = n; done = true; error = meta_error q'; response = q' }
      else record { consumed = n; done = false; error = none; response = q' })
