-- ===== src/Response/Detect/Ends.antt =====
-- response.go, `detectFormat`: it ends.
use rapidyenc.Base.{arith, ℕ, ◌∷◌, [], Bytes, Finishes}
use rapidyenc.Response.{Response, Decoder}
use rapidyenc.Response.Uu.{decode_uu_char, decode_uu_char_workaround, unstuff}
use rapidyenc.Response.Detect.{slice, try_length, probably_uu, detect_short, detect_format}

slice-Finishes : (line : Bytes) (lo hi : ℕ) → Finishes (slice line lo hi)
slice-Finishes line lo hi = ground arith

try_length-Finishes : (line : Bytes) (n : ℕ) → Finishes (try_length line n)
unfolding try_length
try_length-Finishes line n = ground arith

probably_uu-Finishes : (r : Response) (line : Bytes) → Finishes (probably_uu r line)
unfolding probably_uu
probably_uu-Finishes r [] = tt
probably_uu-Finishes r (c ∷ cs) =
    let first = try_length-Finishes (c ∷ cs) (decode_uu_char_workaround c) in
    let second = try_length-Finishes (c ∷ cs) (decode_uu_char c) in ground (arith, first, second)

pub detect_format-Finishes :
    (d : Decoder) (r : Response) (line : Bytes) → Finishes (detect_format d r line)
unfolding detect_format detect_short
detect_format-Finishes d r line = ground (arith, probably_uu-Finishes r (unstuff line))
