-- ===== src/Response/Uu.antt =====
-- response.go, `decodeUU` and the characters of UU encoding.
pub mod Tracks
use Prim.Native.Nat.{bit_or, max}
use rapidyenc.Base.{
  ℕ, ◌+◌, ◌-◌, ◌*◌, ◌/◌, ◌%◌, Bool, true, false, not, ◌&&◌, ◌||◌, Option, none, some, [], ◌∷◌, ◌++◌,
  Bytes, codes, length, drop, ltb, leb, ◌==◌, if◌then◌else◌, sub_byte,
}
use rapidyenc.Base.Int.{pos}
use rapidyenc.Go.Int64.{add_int64}
use rapidyenc.Go.ByteStrings.{equal, has_prefix, trim_left}
use rapidyenc.Go.Crc32.{update}
use rapidyenc.Response.{Response, Buffer, Decoder, with_meta}

-- `decodeUUChar`
unfoldable pub decode_uu_char : ℕ → ℕ
decode_uu_char c = if c == b'`' then 0 else sub_byte c 32 % 64

-- `decodeUUCharWorkaround`: `(c - 32) & 63` on an int.
unfoldable pub decode_uu_char_workaround : ℕ → ℕ
decode_uu_char_workaround c = ((c + 64 - 32) % 64 * 4 + 5) / 3

-- The bytes of a group from the six bits of its characters.
abbrev pub first_byte : ℕ → ℕ → ℕ
first_byte c0 c1 = bit_or (c0 * 4 % 256) (c1 / 16)

abbrev pub second_byte : ℕ → ℕ → ℕ
second_byte c1 c2 = bit_or (c1 * 16 % 256) (c2 / 4)

abbrev pub third_byte : ℕ → ℕ → ℕ
third_byte c2 c3 = bit_or (c2 * 64 % 256) c3

abbrev pub group : ℕ → ℕ → ℕ → ℕ → ℕ → Bytes
group n c0 c1 c2 c3 =
    first_byte c0 c1
    ∷ (if ltb 1 n then second_byte c1 c2 ∷ (if ltb 2 n then third_byte c2 c3 ∷ [] else []) else [])

-- `for ; effLen > 0 && reader.Len() >= 4; effLen -= 3`: the bytes decoded, and what is left of
-- `effLen`.
unfoldable pub decode_groups : ℕ → Bytes → Bytes × ℕ
unfolding decode_uu_char
decode_groups n (a ∷ b ∷ c ∷ d ∷ r) =
    let (decoded, left) = decode_groups (n - 3) r in
    if ltb 0 n
    then (
      group n (decode_uu_char a) (decode_uu_char b) (decode_uu_char c) (decode_uu_char d)
          ++ decoded,
      left,
    )
    else ([], n)
decode_groups n r = ([], n)

-- `r.Data = append(r.Data, decoded...)`
abbrev pub append_data : Decoder → Option Buffer → Bytes → Option Buffer
append_data d none decoded =
    some (record { bytes = decoded; capacity = d.go.append_capacity (length decoded) })
append_data d (some b) decoded = some (record {
  bytes = b.bytes ++ decoded;
  capacity =
      if leb (length (b.bytes ++ decoded)) b.capacity
      then b.capacity
      else d.go.append_capacity (length (b.bytes ++ decoded));
})

abbrev pub bad_line : Response → Response
bad_line r = record r { metadata = record r.metadata { bad_data = true } }

-- What follows the decoding of a line.
pub add_decoded : Decoder → Response → Bytes × ℕ → Response
add_decoded d r (decoded, left) = grow (if ltb 0 left then bad_line r else r)
  where
    grow : Response → Response
    grow q =
        if ltb 0 (length decoded)
        then record q {
          contents = append_data d q.contents decoded;
          metadata = record q.metadata {
            bytes_produced = add_int64 q.metadata.bytes_produced (pos (length decoded));
            crc = update q.metadata.crc decoded;
          };
        }
        else q

-- A line with its length byte `c` in front.
pub decode_uu_data : Decoder → Response → Bytes → Response
decode_uu_data d r [] = r
decode_uu_data d r (c ∷ line) =
    if ltb (length line) (decode_uu_char c)
    then (if ltb (length line) (decode_uu_char_workaround c)
        then bad_line r
        else add_decoded d r (decode_groups (decode_uu_char_workaround c) line))
    else add_decoded d r (decode_groups (decode_uu_char c) line)

abbrev pub unstuff : Bytes → Bytes
unstuff line = if has_prefix line (codes "..") then drop 1 line else line

-- `if r.body` in `decodeUU`, behind the test for the end line.
pub decode_uu_line : Decoder → Response → Bytes → Response
unfolding decode_uu_data add_decoded
decode_uu_line d r line =
    if length line == 0 || equal line (codes "-- ") || has_prefix line (codes "Posted via ")
    then r
    else decode_uu_data d r (unstuff line)

abbrev pub is_full_line : Bytes → Bool
is_full_line [] = false
is_full_line (c ∷ r) = (length (c ∷ r) == 60 || length (c ∷ r) == 61) && c == b'M'

abbrev pub is_space : ℕ → Bool
is_space c = c == b' '

-- The filename behind "begin " and the permissions.
abbrev pub begin_name : Decoder → Bytes → Bytes
begin_name d line = trim_left is_space (d.go.trim_digits (trim_left is_space (drop 6 line)))

-- `decodeUU`, which returns no error.
unfoldable pub decode_uu : Decoder → Response → Bytes → Response
unfolding decode_uu_line
decode_uu d r line =
    if not r.body && has_prefix line (codes "begin ")
    then with_meta (record r { body = true }) (λ m. record m { file_name = begin_name d line })
    else in_body (if not r.body && is_full_line line then record r { body = true } else r)
  where
    in_body : Response → Response
    in_body q =
        if q.body
        then (if equal line (codes "`") || equal line (codes "end")
            then with_meta (record q { body = false })
                (λ m. record m { file_size = q.metadata.bytes_produced })
            else decode_uu_line d q line)
        else q
