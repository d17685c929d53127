-- ===== src/Cgo.antt =====
-- encoder_cgo.go and decoder_cgo.go: what stands around the calls of the C library, whose
-- functions are parameters. A call of the library is given the bytes at `src` and gives those that it
-- wrote to `dst`, whose length it does not know.
pub mod RoundTrip
pub mod Incremental
mod Tests
use rapidyenc.Base.{
  ℕ, ◌-◌, ◌%◌, ◌^◌, ◌==◌, Bool, true, false, Option, none, some, [], ◌∷◌, Bytes, length, leb, ltb,
  if◌then◌else◌, Outcome, ret, panic, ◌>>=◌,
}
use rapidyenc.Base.Int.{ℤ, pos, negsuc}
use rapidyenc.Decoder.{State, End, Decoded}
use rapidyenc.Writer.{max_length}

-- `Encode`; none is the error "empty source". `dst[:length]` is within the capacity of `dst`.
unfoldable pub encode : (Bytes → Bytes) → Bytes → Outcome (Option Bytes)
encode c_encode [] = ret none
encode c_encode (c ∷ cs) = do
  most ← max_length (length (c ∷ cs)) 128
  (if leb (length (c_encode (c ∷ cs))) most then ret (some (c_encode (c ∷ cs))) else panic)

-- `decodeIncremental`, with `true` for the error that `dst` is too small.
unfoldable pub decode_incremental :
    (Bytes → State → Decoded) → ℕ → Bytes → State → Outcome (Decoded × Bool)
decode_incremental c_decode dst_len [] s =
    ret (record { n_src = 0; decoded = []; state = s; ended = End.none }, false)
decode_incremental c_decode dst_len (c ∷ cs) s =
    if ltb dst_len (length (c ∷ cs))
    then ret (record { n_src = 0; decoded = []; state = s; ended = End.none }, true)
    else if leb (length (c_decode (c ∷ cs) s).decoded) dst_len
    then ret (c_decode (c ∷ cs) s, false)
    else panic

-- `C.int(n)`: the lowest 32 bits, with a sign.
abbrev pub signed32 : ℕ → ℤ
signed32 w = if ltb w (2 ^ 31) then pos w else negsuc (2 ^ 32 - w - 1)

unfoldable pub to_c_int : ℤ → ℤ
to_c_int (pos n) = signed32 (n % 2 ^ 32)
to_c_int (negsuc n) = signed32 (2 ^ 32 - 1 - n % 2 ^ 32)

-- `rapidyenc_encode_ex`: the column that it leaves, and the bytes that it writes.
abbrev pub EncodeEx : Type 0
EncodeEx = ℤ → ℤ → Bytes → Bool → ℤ × Bytes

abbrev pub within_dest : ℕ → ℤ × Bytes → Outcome (ℤ × Bytes)
within_dest dest_len (col, out) = if leb (length out) dest_len then ret (col, out) else panic

-- `encodeIncremental`: the new `*column`, and `dest[:length]`. `&src[0]` and `&dest[0]` panic on empty
-- slices, and `isEnd` is not used.
unfoldable pub encode_incremental : EncodeEx → ℤ → ℤ → Bytes → ℕ → Bool → Outcome (ℤ × Bytes)
unfolding to_c_int
encode_incremental c_encode_ex line col [] dest_len is_end = panic
encode_incremental c_encode_ex line col (c ∷ cs) dest_len is_end =
    if dest_len == 0
    then panic
    else within_dest dest_len (c_encode_ex (to_c_int line) (to_c_int col) (c ∷ cs) false)
