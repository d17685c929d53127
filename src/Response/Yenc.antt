-- ===== src/Response/Yenc.antt =====
-- response.go, `ensureData`, `grow` and `decodeYenc`; decoder_scalar.go, by which `decodeIncremental`
-- is `decodeGeneric`; crc32_multistream_other.go, by which `crcUpdate` is `crc32.Update`.
pub mod Body
pub mod Sizes
pub mod Tracks
use Prim.Native.Nat.{max, min}
use rapidyenc.Base.{
  ℕ, ◌+◌, ◌-◌, ◌*◌, false, Option, none, some, [], ◌∷◌, ◌++◌, Bytes, length, take, ltb, leb,
  if◌then◌else◌, Outcome, ret, panic, ◌>>=◌,
}
use rapidyenc.Base.Int.{ℤ, pos, negsuc, ◌-ℤ◌}
use rapidyenc.Go.Int64.{add_int64, is_positive}
use rapidyenc.Go.Crc32.{update}
use rapidyenc.Decoder.{State, crlf, crlfeq, End, control, article, Decoded, decode_generic}
use rapidyenc.Response.{Response, ResponseMeta, Buffer, Decoder}

abbrev pub yenc_max_part_size : ℕ
yenc_max_part_size = 10 * 1024 * 1024

abbrev pub yenc_min_buffer_size : ℕ
yenc_min_buffer_size = 1024

-- `min(base, yencMaxPartSize)` and 64 more, on an int64.
abbrev pub with_margin : ℤ → ℤ
with_margin (pos n) = pos (min n yenc_max_part_size + 64)
with_margin (negsuc n) = if ltb n 64 then pos (64 - 1 - n) else negsuc (n - 64)

abbrev pub clamp_size : ℤ → ℕ
clamp_size (pos n) = min (max n yenc_min_buffer_size) yenc_max_part_size
clamp_size (negsuc n) = yenc_min_buffer_size

-- `computeExpectedSize`
unfoldable pub compute_expected_size : ResponseMeta → ℕ
compute_expected_size m =
    clamp_size
      (with_margin (if is_positive m.meta.part_size then m.meta.part_size else m.meta.file_size))

-- `len(r.Data)` and `cap(r.Data)`, which are 0 for nil.
abbrev pub bytes_of : Option Buffer → Bytes
bytes_of none = []
bytes_of (some b) = b.bytes

abbrev pub capacity_of : Option Buffer → ℕ
capacity_of none = 0
capacity_of (some b) = b.capacity

-- `grow`
pub grow : Decoder → Buffer → ℕ → Buffer
grow d b n =
    if ltb b.capacity n
    then record b {
      capacity = d.go.append_capacity (if ltb n (2 * b.capacity) then 2 * b.capacity else n);
    }
    else b

-- The buffer of the first call: that of `dataFunc` if it is large enough.
pub first_buffer : Decoder → ResponseMeta → Buffer
unfolding compute_expected_size
first_buffer d m =
    let expected = compute_expected_size m in
    let given : ℕ = elim d.data_func [ none ↦ 0 | some n ↦ n ] in
    record { bytes = []; capacity = if ltb given expected then expected else given }

abbrev pub current_buffer : Decoder → ResponseMeta → Option Buffer → Buffer
current_buffer d m none = first_buffer d m
current_buffer d m (some b) = b

-- The switch of `ensureData`: the buffer, and the part of `buf` that is decoded into it.
pub fit : Decoder → Buffer → Bytes → Buffer × Bytes
unfolding grow
fit d b buf =
    let space = b.capacity - length b.bytes in
    if leb (length buf) space
    then (b, buf)
    else if ltb 0 space
    then (b, take space buf)
    else (grow d b (length b.bytes + length buf), buf)

-- `ensureData`
unfoldable pub ensure_data : Decoder → Response → Bytes → Buffer × Bytes
unfolding first_buffer fit
ensure_data d r buf = fit d (current_buffer d r.metadata r.contents) buf

-- decoder_scalar.go
abbrev pub decode_incremental : ℕ → Bytes → State → Outcome Decoded
decode_incremental = decode_generic

-- crc32_multistream_other.go
abbrev pub crc_update : ℕ → Bytes → ℕ
crc_update = update

-- In `decodeYenc`: what was produced goes behind `r.Data`.
pub take_decoded : Response → Buffer → Decoded → Response
take_decoded r b d =
    let r' = record r { contents = some b; state = d.state } in
    if ltb 0 (length d.decoded)
    then record r' {
      contents = some (record b { bytes = b.bytes ++ d.decoded });
      metadata = record r.metadata {
        crc = crc_update r.metadata.crc d.decoded;
        bytes_produced = add_int64 r.metadata.bytes_produced (pos (length d.decoded));
      };
    }
    else r'

-- `switch end`: the bytes that count as taken, and the response.
pub at_end : Response → ℕ → State → End → ℤ × Response
at_end r n crlfeq End.none = (pos n -ℤ pos 1, record r { state = crlf })
at_end r n s End.none = (pos n, r)
at_end r n s control = (pos n -ℤ pos 2, record r { body = false })
at_end r n s article = (pos n -ℤ pos 3, record r { body = false })

-- `decodeYenc`, which returns no error. `r.Data[offset : offset+len(buf)]` is within the capacity.
unfoldable pub decode_yenc : Decoder → Response → Bytes → Outcome (ℤ × Response)
unfolding take_decoded at_end ensure_data ◌-ℤ◌
decode_yenc dec r [] = ret (pos 0, r)
decode_yenc dec r (c ∷ cs) = do
  let (b, buf) = ensure_data dec r (c ∷ cs)
  d ←
      (if ltb b.capacity (length b.bytes + length buf)
        then panic
        else decode_incremental (length buf) buf r.state)
  ret (at_end (take_decoded r b d) d.n_src d.state d.ended)
