-- ===== src/Meta/Validate.antt =====
-- What `validate` accepts, and which of several faults it names.
use rapidyenc.Base.{◌≡◌, arith, length, none, ◌<◌, ◌+◌}
use rapidyenc.Base.Int.{ℤ, pos, pos_part, neg_part, ◌≤ℤ◌}
use rapidyenc.Meta.{Meta, validate}

-- `a < b` on integers
abbrev pub IsLess : ℤ → ℤ → Type 0
IsLess a b = pos_part a + neg_part b < pos_part b + neg_part a

-- A part that lies in no file before its start, is numbered from 1, and holds something.
pub record IsValid (m : Meta) : Type 0 where
  pub named : 0 < length m.file_name
  pub file : IsLess (pos 0) m.file_size
  pub numbered : IsLess (pos 0) m.part_number
  pub counted : m.part_number ≤ℤ m.total_parts
  pub placed : pos 0 ≤ℤ m.offset
  pub part : IsLess (pos 0) m.part_size

-- `validate` returns nil exactly for the headers that meet every condition.
pub validate_iff : (m : Meta) → (validate m ≡ none → IsValid m) × (IsValid m → validate m ≡ none)
unfolding validate
validate_iff m = ((λ h. ground arith), (λ v. ground arith))
