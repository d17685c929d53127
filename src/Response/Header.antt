-- ===== src/Response/Header.antt =====
-- response.go, `processYencHeader` and the functions that extract values from a header line.
-- `extractCRC` decodes in place and so writes over the first bytes of the value in the line, which no
-- later search of the line can take for one of its keys; the model leaves the line alone.
pub mod Keeps
use Prim.Native.Nat.{min}
use rapidyenc.Base.{
  ℕ, ◌+◌, ◌-◌, ◌*◌, Bool, true, false, not, ◌&&◌, ◌||◌, Option, none, some, [], ◌∷◌, ◌++◌, Bytes,
  codes, length, drop, replicate, ◌==◌, if◌then◌else◌,
}
use rapidyenc.Base.Int.{ℤ, pos, ltb_ℤ}
use rapidyenc.Go.Int64.{sub_int64}
use rapidyenc.Go.ByteStrings.{has_prefix, index, until}
use rapidyenc.Go.Strconv.{parse_int, hex_value}
use rapidyenc.Response.{Response, with_meta}

-- What stands behind the first place of `key`.
abbrev pub behind_key : Bytes → Bytes → Option Bytes
behind_key line key = elim (index line key) [
  | none ↦ none
  | some start ↦ some (drop (start + length key) line)
]

abbrev pub ends_string : ℕ → Bool
ends_string c = c == 0 || c == b'\r' || c == b'\n'

abbrev pub ends_value : ℕ → Bool
ends_value c = c == 0 || c == b' ' || c == b'\r' || c == b'\n'

-- `extractString`; the empty string comes with an error.
unfoldable pub extract_string : Bytes → Bytes → Bytes
extract_string line key = elim (behind_key line key) [
  | none ↦ []
  | some value ↦ until ends_string value
]

-- `extractInt`: the value, and `true` where there is no error.
unfoldable pub extract_int : Bytes → Bytes → ℤ × Bool
extract_int line key = elim (behind_key line key) [
  | none ↦ (pos 0, false)
  | some value ↦ parse_int (until ends_value value)
]

-- `hex.Decode` and `binary.BigEndian.Uint32` of eight digits.
unfoldable pub decode_hex : ℕ → Bytes → Option ℕ
decode_hex acc [] = some acc
decode_hex acc (c ∷ cs) = elim (hex_value c) [ none ↦ none | some d ↦ decode_hex (acc * 16 + d) cs ]

-- The last eight bytes, with zeros in front of a shorter text.
abbrev pub last_eight : Bytes → Bytes
last_eight value =
    let parsed = drop (length value - min 8 (length value)) value in
    replicate (8 - length parsed) b'0' ++ parsed

-- `extractCRC`: none is an error.
unfoldable pub extract_crc : Bytes → Bytes → Option ℕ
unfolding decode_hex
extract_crc line key = elim (behind_key line key) [
  | none ↦ none
  | some value ↦ decode_hex 0 (last_eight (until ends_value value))
]

-- The branch of "=ybegin ".
pub process_ybegin : Response → Bytes → Response
process_ybegin r line = part (extract_int line (codes " part="))
  where
    named : Response
    named =
        with_meta (record r { has_begin = true })
          (λ m. record m {
            file_name = extract_string line (codes " name=");
            file_size = (extract_int line (codes " size=")).0;
          })

    total : Response → Response
    total q = record q {
      metadata = record q.metadata { total_parts = (extract_int line (codes " total=")).0 };
    }

    part : ℤ × Bool → Response
    part (n, true) = total (with_meta named (λ m. record m { part_number = n }))
    part (n, false) = total (
        with_meta (record named { body = true })
          (λ m. record m { part_number = n; part_size = m.file_size }))

-- The branch of "=ypart ".
abbrev pub set_begin : Response → ℤ × Bool → Response × ℤ
set_begin r (b, found) =
    if found && ltb_ℤ (pos 0) b
    then (with_meta r (λ m. record m { offset = sub_int64 b (pos 1) }), b)
    else (r, pos 0)

abbrev pub set_end : Response × ℤ → ℤ × Bool → Response
set_end (r, begin) (e, found) =
    if found && not (ltb_ℤ e begin)
    then with_meta r (λ m. record m { part_size = sub_int64 e m.offset })
    else r

pub process_ypart : Response → Bytes → Response
process_ypart r line =
    set_end
      (set_begin (record r { has_part = true; body = true }) (extract_int line (codes " begin=")))
      (extract_int line (codes " end="))

-- The branch of "=yend ".
abbrev pub set_crc : Response → Option ℕ → Option ℕ → Response
set_crc r (some crc) other = record r {
  metadata = record r.metadata { expected_crc = crc };
  has_crc = true;
}
set_crc r none (some crc) = record r {
  metadata = record r.metadata { expected_crc = crc };
  has_crc = true;
}
set_crc r none none = r

pub process_yend : Response → Bytes → Response
process_yend r line = sized (
    set_crc (record r { has_end = true }) (extract_crc line (codes " pcrc32="))
      (extract_crc line (codes " crc32=")))
  where
    sized : Response → Response
    sized q = record q {
      metadata = record q.metadata { end_size = (extract_int line (codes " size=")).0 };
    }

-- `processYencHeader`
unfoldable pub process_yenc_header : Response → Bytes → Response
unfolding process_ybegin process_ypart process_yend
process_yenc_header r line =
    if has_prefix line (codes "=ybegin ")
    then process_ybegin r (drop (length (codes "=ybegin")) line)
    else if has_prefix line (codes "=ypart ")
    then process_ypart r (drop (length (codes "=ypart")) line)
    else if has_prefix line (codes "=yend ")
    then process_yend r (drop (length (codes "=yend")) line)
    else r
