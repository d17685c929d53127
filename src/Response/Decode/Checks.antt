-- ===== src/Response/Decode/Checks.antt =====
-- response.go, `metaError`: which articles are taken for complete and undamaged.
use rapidyenc.Base.{true, false, none, ◌≡◌, ◌⊎◌, arith}
use rapidyenc.Go.Int64.{is_positive}
use rapidyenc.Response.{Response, yenc}
use rapidyenc.Response.Decode.{meta_error}

-- Both header and trailer were seen; a part has the size of its "=ypart" line, a file without parts
-- that of its "=ybegin" line if this is positive; and the checksum is that of the trailer, if any.
pub record IsComplete (r : Response) : Type 0 where
  pub begun : r.has_begin ≡ true
  pub ended : r.has_end ≡ true
  pub part : r.has_part ≡ false ⊎ r.metadata.meta.part_size ≡ r.metadata.bytes_produced
  pub file :
      r.has_part ≡ true
      ⊎ is_positive r.metadata.meta.file_size ≡ false
      ⊎ r.metadata.meta.file_size ≡ r.metadata.bytes_produced
  pub summed : r.has_crc ≡ false ⊎ r.metadata.expected_crc ≡ r.metadata.crc

-- For a yEnc article `metaError` is nil just when the article is complete: header and trailer were
-- seen; with a "=ypart" line the number of bytes is that of the part; without one it is that of the
-- file, if a positive size was declared; and the checksum is that of the trailer where there is one.
pub meta_error_iff :
    (r : Response)
    → r.metadata.format ≡ yenc
    → (meta_error r ≡ none → IsComplete r) × (IsComplete r → meta_error r ≡ none)
unfolding meta_error
meta_error_iff r h = ((λ e. ground arith), (λ v. ground arith))
