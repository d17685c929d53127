-- ===== src/Response.antt =====
-- response.go and the types of decoder.go and meta.go that it works on: one NNTP response, its
-- metadata, and the parts of the `Decoder` that it reads. The children hold its methods.
pub mod Header
pub mod Uu
pub mod Detect
pub mod Yenc
pub mod Decode
mod Tests
use rapidyenc.Base.{ℕ, Bool, false, Option, none, some, List, [], Bytes, ◌||◌, ◌==◌}
use rapidyenc.Base.Int.{ℤ, pos}
use rapidyenc.Go.Int64.{eq_ℤ}
use rapidyenc.Decoder.{State, crlf}
use rapidyenc.Meta.{Meta}

pub data Format : Type 0 where
  unknown yenc uu : Format

-- `ResponseMeta`; its own `TotalParts` hides the one of `Meta`.
pub record ResponseMeta : Type 0 where
  pub meta : Meta
  pub bytes_produced : ℤ
  pub bytes_consumed : ℤ
  pub lines : List Bytes
  pub format : Format
  pub end_size : ℤ
  pub total_parts : ℤ
  pub expected_crc : ℕ
  pub message : Bytes
  pub status_code : ℤ
  pub crc : ℕ
  pub bad_data : Bool

-- A slice that is not nil: its bytes and its capacity.
pub record Buffer : Type 0 where
  pub bytes : Bytes
  pub capacity : ℕ

-- `Response`
pub record Response : Type 0 where
  pub metadata : ResponseMeta
  pub contents : Option Buffer
  pub state : State
  pub eof : Bool
  pub body : Bool
  pub has_part : Bool
  pub has_begin : Bool
  pub has_end : Bool
  pub has_crc : Bool
  pub has_empty_line : Bool

-- What the code leaves to Go: the capacity that `append` gives a new slice of so many bytes, and
-- `bytes.TrimLeftFunc(s, unicode.IsDigit)`.
pub record Runtime : Type 0 where
  pub append_capacity : ℕ → ℕ
  pub trim_digits : Bytes → Bytes

-- What a response reads of the `Decoder`; of `dataFunc` the capacity of the slice that it returns.
pub record Decoder : Type 0 where
  pub status_line_consumed : Bool
  pub data_func : Option ℕ
  pub go : Runtime

-- `&Response{}`
abbrev pub new_response : Response
new_response = record {
  metadata = record {
    meta = record {
      file_name = [];
      file_size = pos 0;
      part_number = pos 0;
      total_parts = pos 0;
      offset = pos 0;
      part_size = pos 0;
    };
    bytes_produced = pos 0;
    bytes_consumed = pos 0;
    lines = [];
    format = unknown;
    end_size = pos 0;
    total_parts = pos 0;
    expected_crc = 0;
    message = [];
    status_code = pos 0;
    crc = 0;
    bad_data = false;
  };
  contents = none;
  state = crlf;
  eof = false;
  body = false;
  has_part = false;
  has_begin = false;
  has_end = false;
  has_crc = false;
  has_empty_line = false;
}

-- `r.Metadata` or one of its fields given anew.
abbrev pub with_meta : Response → (Meta → Meta) → Response
with_meta r f = record r { metadata = record r.metadata { meta = f r.metadata.meta } }

-- `isMultiline`
pub is_multiline : ℤ → Bool
is_multiline code =
    eq_ℤ code (pos 100)
    || eq_ℤ code (pos 101)
    || eq_ℤ code (pos 215)
    || eq_ℤ code (pos 220)
    || eq_ℤ code (pos 221)
    || eq_ℤ code (pos 222)
    || eq_ℤ code (pos 224)
    || eq_ℤ code (pos 225)
    || eq_ℤ code (pos 231)

-- `maybeBinaryData`
pub maybe_binary_data : Response → Bool
maybe_binary_data r =
    eq_ℤ code (pos 222) || eq_ℤ code (pos 220) || eq_ℤ code (pos 224) || eq_ℤ code (pos 221)
  where
    code : ℤ
    code = r.metadata.status_code
