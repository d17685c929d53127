-- ===== src/Meta.antt =====
-- meta.go: the yEnc headers of a file or a part, and their validation.
use rapidyenc.Base.{
  ℕ, Bool, true, false, Option, none, some, [], ◌∷◌, Bytes, length, ◌==◌, if◌then◌else◌,
}
use rapidyenc.Base.Int.{ℤ, pos, negsuc, ltb_ℤ, ◌≤ℤ◌}
use rapidyenc.Go.Int64.{add_int64, is_positive}
pub mod Validate
mod Tests

pub record Meta : Type 0 where
  pub file_name : Bytes
  pub file_size : ℤ
  pub part_number : ℤ
  pub total_parts : ℤ
  pub offset : ℤ
  pub part_size : ℤ

-- `Begin` and `End`, in int64.
pub begin_of : Meta → ℤ
begin_of m = add_int64 m.offset (pos 1)

pub end_of : Meta → ℤ
end_of m = add_int64 m.offset m.part_size

pub data MetaError : Type 0 where
  file_name_empty file_size part_number total_parts offset part_size : MetaError

unfoldable pub validate : Meta → Option MetaError
validate m =
    if length m.file_name == 0
    then some MetaError.file_name_empty
    else if ltb_ℤ (pos 0) m.file_size
    then (if ltb_ℤ (pos 0) m.part_number
        then (if ltb_ℤ m.total_parts m.part_number
            then some MetaError.total_parts
            else if ltb_ℤ m.offset (pos 0)
            then some MetaError.offset
            else if ltb_ℤ (pos 0) m.part_size
            then none
            else some MetaError.part_size)
        else some MetaError.part_number)
    else some MetaError.file_size
