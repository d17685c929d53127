-- ===== src/Meta/Tests.antt =====
-- The validation of a header that is valid.
use rapidyenc.Base.{none, ◌≡◌, codes}
use rapidyenc.Base.Int.{pos}
use rapidyenc.Meta.{Meta, validate}
use rapidyenc.Meta.Validate.{IsValid, validate_iff}

abbrev one_part : Meta
one_part = record {
  file_name = codes "a.bin";
  file_size = pos 3;
  part_number = pos 1;
  total_parts = pos 1;
  offset = pos 0;
  part_size = pos 3;
}

validate_iff_example :
    (validate one_part ≡ none → IsValid one_part) × (IsValid one_part → validate one_part ≡ none)
validate_iff_example = validate_iff one_part
