-- ===== src/Cgo/Tests.antt =====
-- `Encode` and `decodeIncremental` with a library that computes what the code in Go computes.
use rapidyenc.Base.{
  ◌∷◌, Bool, false, ℕ, ◌+◌, [], ◌++◌, ◌≡◌, refl, arith, true, some, none, Bytes, codes, length,
  Outcome, ret,
}
use rapidyenc.Decoder.{State, crlf, control, End, decode_generic}
use rapidyenc.Encoder.{encode_generic}
use rapidyenc.Encoder.Ending.{EndsVisible, encode_generic_end}
use rapidyenc.Base.Int.{ℤ, pos, pos_part}
use rapidyenc.Cgo.Incremental.{IsEncodeEx, encode_incremental-decode_generic}
use rapidyenc.Writer.{max_length}
use rapidyenc.Cgo.{EncodeEx, to_c_int, encode_incremental, encode, decode_incremental}
use rapidyenc.Cgo.RoundTrip.{IsEncoder, encode-decode_generic}

abbrev written : Outcome (ℕ × Bytes) → Bytes
written (ret r) = r.1
written o = []

go_encode : Bytes → Bytes
go_encode src = written (encode_generic 128 0 src true)

go_encode-IsEncoder : IsEncoder go_encode
unfolding go_encode
go_encode-IsEncoder c cs b =
    let (col, out, e, visible, reads) = encode_generic_end 128 c cs [] 0 b in (col, rw e refl)

abbrev words : Bytes
words = codes "a line to encode"

encode-decode_generic_example :
    (encode go_encode [] ≡ ret none)
    × (out : Bytes) × (encode go_encode words ≡ ret (some out))
    × EndsVisible out
    × (decode_generic (length (out ++ codes "\r\n=y") + 5) (out ++ codes "\r\n=y") crlf
        ≡ ret (record {
          n_src = length out + 4;
          decoded = words;
          state = State.none;
          ended = control;
        }))
encode-decode_generic_example =
    encode-decode_generic go_encode b'a' (codes " line to encode") [] 5 go_encode-IsEncoder
      (omega arith)

-- A slice that is too small is refused before the library is called.
too_small :
    decode_incremental
      (λ src s. record { n_src = 0; decoded = []; state = s; ended = End.none })
      3
      words
      crlf
    ≡ ret (record { n_src = 0; decoded = []; state = crlf; ended = End.none }, true)
unfolding decode_incremental
too_small = refl

abbrev after : Outcome (ℕ × Bytes) → ℤ × Bytes
after (ret r) = (pos r.0, r.1)
after o = (pos 0, [])

go_encode_ex : EncodeEx
go_encode_ex line col src is_end = after (encode_generic (pos_part line) (pos_part col) src is_end)

go_encode_ex-IsEncodeEx : IsEncodeEx go_encode_ex
unfolding go_encode_ex
go_encode_ex-IsEncodeEx line col c cs is_end col' out b e = rw e refl

-- The blank at the end stays as it is, though the call is the last one.
abbrev open_end : Bytes
open_end = codes "end" ++ (246 ∷ [])

open_end_encoded : encode_generic 128 5 open_end false ≡ ret (9, 143 ∷ 152 ∷ 142 ∷ 32 ∷ [])
unfolding encode_generic
open_end_encoded = refl

open_end_kept :
    encode_incremental go_encode_ex (pos 128) (pos 5) open_end 64 true
    ≡ ret (pos 9, 143 ∷ 152 ∷ 142 ∷ 32 ∷ [])
unfolding encode_incremental go_encode_ex encode_generic to_c_int
open_end_kept = refl

-- Two for each of the four bytes, two and 64 more, and none for 64 bytes each.
open_end_most : max_length 4 128 ≡ ret 74
unfolding max_length
open_end_most = refl

encode_incremental-decode_generic_example :
    (col : ℕ) × (out : Bytes) × ((is_end : Bool)
      → encode_incremental go_encode_ex (pos 128) (pos 0) open_end 80 is_end ≡ ret (pos col, out))
    × (decode_generic (length (out ++ codes "\r\n=y") + 5) (out ++ codes "\r\n=y") crlf
        ≡ ret (record {
          n_src = length out + 4;
          decoded = open_end;
          state = State.none;
          ended = control;
        }))
encode_incremental-decode_generic_example =
    encode_incremental-decode_generic go_encode_ex 128 80 74 b'e' (codes "nd" ++ (246 ∷ [])) [] 5
      go_encode_ex-IsEncodeEx (omega arith) (omega arith) (omega arith) open_end_most (omega arith)
