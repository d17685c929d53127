-- ===== src/Response/Detect.antt =====
-- response.go, `detectFormat`: is a line the start of yEnc or of UU data?
pub mod Faults
pub mod Ends
pub mod Tracks
use rapidyenc.Base.{
  ℕ, ◌-◌, Bool, true, false, not, ◌&&◌, ◌||◌, Option, none, some, [], ◌∷◌, Bytes, codes, length,
  take, drop, ltb, leb, ◌==◌, if◌then◌else◌, Outcome, ret, panic, ◌>>=◌,
}
use rapidyenc.Base.Int.{pos}
use rapidyenc.Go.Int64.{eq_ℤ}
use rapidyenc.Go.ByteStrings.{has_prefix, cut, trim_left}
use rapidyenc.Response.{Response, Decoder, Format, yenc, uu, maybe_binary_data}
use rapidyenc.Response.Uu.{
  decode_uu_char, decode_uu_char_workaround, is_full_line, is_space, unstuff,
}

-- `line[lo:hi]`
abbrev pub slice : Bytes → ℕ → ℕ → Outcome Bytes
slice line lo hi =
    if leb lo hi && leb hi (length line) then ret (take (hi - lo) (drop lo line)) else panic

-- `allInASCIIRange`
pub all_in_ascii_range : Bytes → ℕ → ℕ → Bool
all_in_ascii_range [] lo hi = true
all_in_ascii_range (c ∷ cs) lo hi = not (ltb c lo || ltb hi c) && all_in_ascii_range cs lo hi

-- `onlySpaceOrBacktick`
unfoldable pub only_space_or_backtick : Bytes → Bool
only_space_or_backtick [] = true
only_space_or_backtick (c ∷ cs) = (c == b' ' || c == b'`') && only_space_or_backtick cs

abbrev pub found : Response → Format → Response
found r f = record r { metadata = record r.metadata { format = f } }

-- The permissions behind "begin " are octal digits, with a space behind them.
abbrev pub octal : Option (Bytes × Bytes) → Bool
octal none = false
octal (some ([], behind)) = false
octal (some (c ∷ cs, behind)) = all_in_ascii_range (c ∷ cs) b'0' b'7'

-- One round of the loop over the two lengths: is the line UU with that length?
pub try_length : Bytes → ℕ → Outcome Bool
try_length line n = if ltb (length line) n then ret false else do
  body ← slice line 1 n
  padding ← slice line n (length line)
  ret (all_in_ascii_range body 32 96 && only_space_or_backtick padding)

-- The loop itself.
pub probably_uu : Response → Bytes → Outcome Response
probably_uu r [] = panic
probably_uu r (first ∷ rest) = do
  broken ← try_length (first ∷ rest) (decode_uu_char_workaround first)
  (if broken
      then ret (record (found r uu) { body = true })
      else (try_length (first ∷ rest) (decode_uu_char first) >>= λ proper.
          ret (if proper then record (found r uu) { body = true } else r)))

-- Behind the tests for "begin ": a UU body with a short final part.
pub detect_short : Decoder → Response → Bytes → Outcome Response
detect_short d r line =
    if leb (length line) 1
    then ret r
    else if not d.status_line_consumed
        && not (
            eq_ℤ r.metadata.status_code (pos 222)
            || eq_ℤ r.metadata.status_code (pos 220) && r.has_empty_line)
    then ret r
    else probably_uu r line

-- `detectFormat`
unfoldable pub detect_format : Decoder → Response → Bytes → Outcome Response
unfolding maybe_binary_data all_in_ascii_range only_space_or_backtick try_length probably_uu
    detect_short
detect_format d r line =
    if not d.status_line_consumed && not (maybe_binary_data r)
    then ret r
    else if length line == 0
    then ret (record r { has_empty_line = true })
    else if has_prefix line (codes "=ybegin ")
    then ret (found r yenc)
    else if is_full_line line
    then ret (found r uu)
    else if has_prefix line (codes "begin ")
    then ret (if octal (cut (trim_left is_space (drop 6 line)) (codes " ")) then found r uu else r)
    else detect_short d r (unstuff line)
