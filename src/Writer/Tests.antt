-- ===== src/Writer/Tests.antt =====
-- Runs of the `Encoder`, and its theorems at concrete inputs.
use rapidyenc.Base.{
  some, none, ◌++◌, Bytes, ℕ, ◌+◌, ◌≤◌, false, [], ◌∷◌, ◌≡◌, refl, arith, codes, ret,
}
use rapidyenc.Encoder.{encode_generic}
use rapidyenc.Writer.{max_length}
use rapidyenc.Base.Int.{pos}
use rapidyenc.Go.Crc32.{update}
use rapidyenc.Go.Int64.{wrap64}
use rapidyenc.Meta.{Meta, validate}
use rapidyenc.Writer.{Encoder, header, trailer}
use rapidyenc.Writer.Output.{write_all, size_error}
use rapidyenc.Writer.RoundTrip.{raw_encoder, part_encoder, IsReadAs, write_all-raw, write_all-part}
use rapidyenc.Writer.Bounds.{encode_generic-max_length}

encode_short : encode_generic 4 0 (246 ∷ 246 ∷ 246 ∷ 246 ∷ []) false ≡ ret (2, codes "=` =`\r\n=`")
unfolding encode_generic
encode_short = refl

encode_generic-max_length_example : (n : ℕ) × (max_length 4 4 ≡ ret n) × (9 + 64 ≤ n)
encode_generic-max_length_example =
    encode_generic-max_length 4 0 (246 ∷ 246 ∷ 246 ∷ 246 ∷ []) (codes "=` =`\r\n=`") 2 (omega arith)
      (omega arith) (λ e. cc) (omega arith) encode_short

abbrev part : Meta
part = record {
  file_name = codes "a.bin";
  file_size = pos 6;
  part_number = pos 1;
  total_parts = pos 1;
  offset = pos 0;
  part_size = pos 6;
}

-- Two pieces, the first of which ends in a byte that is encoded as a tab.
abbrev first_piece : Bytes
first_piece = 104 ∷ 19 ∷ 223 ∷ []

abbrev second_piece : Bytes
second_piece = 214 ∷ 4 ∷ 223 ∷ []

write_all-part_example :
    (e : Encoder Bytes) × (text : Bytes) × (write_all
        (part_encoder 4 part)
        (first_piece ∷ second_piece ∷ [])
      ≡ ret (
        e,
        some ((header part 4 ++ text) ++ trailer part (update 0 (first_piece ++ second_piece))),
        size_error false part (wrap64 (pos 6)),
      ))
    × IsReadAs (first_piece ++ second_piece) text (codes "end") 7
unfolding validate
write_all-part_example =
    write_all-part 4 part first_piece (second_piece ∷ []) (codes "end") 7 (omega arith) refl
      (omega arith) (λ e. cc)

write_all-raw_example :
    (e : Encoder Bytes) × (text : Bytes) × (write_all
        (raw_encoder 4 part)
        (first_piece ∷ [] ∷ second_piece ∷ [])
      ≡ ret (e, some text, none))
    × IsReadAs (first_piece ++ second_piece) text (codes "end") 7
write_all-raw_example =
    write_all-raw 4 part (first_piece ∷ [] ∷ second_piece ∷ []) (codes "end") 7 (omega arith)
      (omega arith) (λ e. cc)
