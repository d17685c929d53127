-- ===== src/Response/Detect/Faults.antt =====
-- response.go, `detectFormat`: a line whose first byte stands for the length 0.
use rapidyenc.Base.{
  ℕ, suc, ◌-◌, take-all, true, false, [], ◌∷◌, ◌≡◌, refl, arith, Bytes, length, ret, panic,
}
use rapidyenc.Go.ByteStrings.{has_prefix}
use rapidyenc.Response.{Response, Decoder}
use rapidyenc.Response.Uu.{decode_uu_char, decode_uu_char_workaround, is_full_line}
use rapidyenc.Response.Detect.{
  detect_format, detect_short, probably_uu, try_length, only_space_or_backtick, all_in_ascii_range,
}

space_no_M : (cs : Bytes) → is_full_line (b' ' ∷ cs) ≡ false
space_no_M cs = ground arith

-- With the length 1 the rest of the line has to be padding.
try_length-1 :
    (c : ℕ) (cs : Bytes)
    → only_space_or_backtick (c ∷ cs) ≡ false
    → try_length (b' ' ∷ c ∷ cs) 1 ≡ ret false
unfolding try_length all_in_ascii_range
try_length-1 c cs other =
    let e : suc (suc (length cs)) - 1 ≡ length (c ∷ cs) = omega arith in
    rw (e, take-all (length (c ∷ cs)) (c ∷ cs) (omega arith)) (ground arith)

try_length-0 : (c : ℕ) (cs : Bytes) → try_length (c ∷ cs) 0 ≡ panic
unfolding try_length
try_length-0 c cs = ground arith

probably_uu-panics :
    (r : Response) (c : ℕ) (cs : Bytes)
    → only_space_or_backtick (c ∷ cs) ≡ false
    → probably_uu r (b' ' ∷ c ∷ cs) ≡ panic
unfolding probably_uu decode_uu_char decode_uu_char_workaround
probably_uu-panics r c cs other = rw (try_length-1 c cs other, try_length-0 b' ' (c ∷ cs)) refl

-- Where the status line was read by the caller, a call of `detectFormat` on a line that starts with a
-- space and holds something else than spaces and backticks behind it panics: the second length tried
-- is 0, and `line[1:0]` is out of range.
pub detect_format-panics :
    (d : Decoder) (r : Response) (cs : Bytes)
    → d.status_line_consumed ≡ true
    → only_space_or_backtick cs ≡ false
    → detect_format d r (b' ' ∷ cs) ≡ panic
unfolding detect_format detect_short has_prefix
detect_format-panics d r [] consumed other = absurd (ground arith)
detect_format-panics d r (c ∷ cs) consumed other =
    let h = probably_uu-panics r c cs other in rw (consumed, space_no_M (c ∷ cs)) (ground arith)
