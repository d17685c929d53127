-- ===== src/Decoder/Tests.antt =====
-- Runs of `decodeGeneric` on concrete bytes, and its theorems at concrete inputs.
use rapidyenc.Base.{[], ◌∷◌, ◌++◌, ◌≡◌, refl, arith, Bytes, codes, ret}
use rapidyenc.Decoder.{State, crlf, crlfeq, End, control, article, Decoded, decode_generic}
use rapidyenc.Decoder.Simulation.{resume}
use rapidyenc.Decoder.Refine.{Refines, decode_generic-Refines}
use rapidyenc.Decoder.Progress.{decode_generic_split}

-- The case of TestDecodeGeneric.
abbrev special : Bytes
special = codes "......\r\n=n..."

special_decoded :
    decode_generic 13 special State.none
    ≡ ret (record {
      n_src = 13;
      decoded = 4 ∷ 4 ∷ 4 ∷ 4 ∷ 4 ∷ 4 ∷ 4 ∷ 4 ∷ 4 ∷ 4 ∷ [];
      state = State.none;
      ended = End.none;
    })
unfolding decode_generic
special_decoded = refl

-- A line end at the end of the input is not taken, though the state says that it was read.
line_end_left :
    decode_generic 3 (codes "k\r\n") State.none
    ≡ ret (record { n_src = 1; decoded = 65 ∷ []; state = crlf; ended = End.none })
unfolding decode_generic
line_end_left = refl

first_part :
    decode_generic 9 (codes "k\r\n=") crlf
    ≡ ret (record { n_src = 4; decoded = 65 ∷ []; state = crlfeq; ended = End.none })
unfolding decode_generic
first_part = refl

second_part :
    decode_generic 9 (codes "yend") crlfeq
    ≡ ret (record { n_src = 1; decoded = []; state = State.none; ended = control })
unfolding decode_generic
second_part = refl

both_parts :
    decode_generic 9 (codes "k\r\n=yend") crlf
    ≡ ret (record { n_src = 5; decoded = 65 ∷ []; state = State.none; ended = control })
unfolding decode_generic
both_parts = refl

article_end :
    decode_generic 9 (codes "k\r\n.\r\nzz") crlf
    ≡ ret (record { n_src = 6; decoded = 65 ∷ []; state = crlf; ended = article })
unfolding decode_generic
article_end = refl

decode_generic-Refines_example :
    (d : Decoded) × (decode_generic 13 special State.none ≡ ret d) × Refines State.none special d
decode_generic-Refines_example = decode_generic-Refines 13 special State.none (omega arith)

decode_generic_split_example :
    resume
      (record { n_src = 5; decoded = 65 ∷ []; state = State.none; ended = control })
      (codes "end" ++ codes "!")
    ≡ resume
        (record { n_src = 5; decoded = 65 ∷ []; state = State.none; ended = control })
        (codes "end" ++ codes "!")
decode_generic_split_example =
    decode_generic_split 9 (codes "k\r\n=") (codes "yend") crlf _ _ _ (omega arith) first_part refl
      second_part both_parts (codes "!")
