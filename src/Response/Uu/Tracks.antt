-- ===== src/Response/Uu/Tracks.antt =====
-- response.go, `decodeUU`: the checksum and the size that it keeps are those of the data.
use rapidyenc.Base.Bits.{bit_or-le}
use rapidyenc.Base.{
  ◌-◌, ◌||◌, ◌*◌, ◌/◌, ◌%◌, ◌<◌, ℕ, Bool, true, false, not, ◌&&◌, Option, none, some, [], ◌∷◌, ◌++◌,
  ◌≡◌, refl, arith, Bytes, All, All-append, IsByte, length, ltb, Bool-cases, inl, inr,
  if◌then◌else◌, codes,
}
use rapidyenc.Go.ByteStrings.{has_prefix, equal}
use rapidyenc.Response.{Response, Buffer, Decoder, with_meta}
use rapidyenc.Response.Uu.{
  group, decode_groups, decode_uu_char, decode_uu_char_workaround, append_data, bad_line,
  add_decoded, decode_uu_data, decode_uu_line, decode_uu, unstuff, is_full_line, begin_name,
}
use rapidyenc.Response.Yenc.{bytes_of}
use rapidyenc.Response.Yenc.Tracks.{IsTracked, Tracks-append}

group-IsBytes : (n a b c d : ℕ) → a < 64 → b < 64 → c < 64 → d < 64 → All IsByte (group n a b c d)
group-IsBytes n a b c d ha hb hc hd = ground (
  arith,
  bit_or-le (a * 4 % 256) (b / 16),
  bit_or-le (b * 16 % 256) (c / 4),
  bit_or-le (c * 64 % 256) d,
)

decode_uu_char-lt : (c : ℕ) → decode_uu_char c < 64
unfolding decode_uu_char
decode_uu_char-lt c = ground arith

decode_groups-IsBytes : (n : ℕ) (line : Bytes) → All IsByte (decode_groups n line).0
unfolding decode_groups
decode_groups-IsBytes n [] = tt
decode_groups-IsBytes n (a ∷ []) = tt
decode_groups-IsBytes n (a ∷ b ∷ []) = tt
decode_groups-IsBytes n (a ∷ b ∷ c ∷ []) = tt
decode_groups-IsBytes n (a ∷ b ∷ c ∷ d ∷ r) = elim (Bool-cases (ltb 0 n)) [
  | inl some_left ↦ rw some_left (
      All-append IsByte
        (group n (decode_uu_char a) (decode_uu_char b) (decode_uu_char c) (decode_uu_char d))
        (decode_groups (n - 3) r).0
        (group-IsBytes n _ _ _ _ (decode_uu_char-lt a) (decode_uu_char-lt b) (decode_uu_char-lt c)
          (decode_uu_char-lt d))
        (decode_groups-IsBytes (n - 3) r))
  | inr none_left ↦ rw none_left tt
]

append_data-bytes :
    (d : Decoder) (o : Option Buffer) (decoded : Bytes)
    → bytes_of (append_data d o decoded) ≡ bytes_of o ++ decoded
append_data-bytes d none decoded = refl
append_data-bytes d (some b) decoded = refl

if-IsTracked :
    (b : Bool) (x y : Response) → IsTracked x → IsTracked y → IsTracked (if b then x else y)
if-IsTracked true x y hx hy = hx
if-IsTracked false x y hx hy = hy

module _ (d : Decoder) where
  add_decoded-IsTracked :
      (r : Response) (x : Bytes × ℕ) → All IsByte x.0 → IsTracked r → IsTracked (add_decoded d r x)
  unfolding add_decoded
  add_decoded-IsTracked r (decoded, left) b t =
      let marked = if-IsTracked (ltb 0 left) (bad_line r) r t t in
      let q = if ltb 0 left then bad_line r else r in
      if-IsTracked (ltb 0 (length decoded)) _ q
        (Tracks-append q.contents _ _ _ decoded marked (append_data-bytes d q.contents decoded) b)
        marked

  decode_uu_data-IsTracked :
      (r : Response) (line : Bytes) → IsTracked r → IsTracked (decode_uu_data d r line)
  unfolding decode_uu_data
  decode_uu_data-IsTracked r [] t = t
  decode_uu_data-IsTracked r (c ∷ line) t =
      let short = decode_groups-IsBytes (decode_uu_char_workaround c) line in
      let full = decode_groups-IsBytes (decode_uu_char c) line in
      if-IsTracked (ltb (length line) (decode_uu_char c)) _ _
        (if-IsTracked (ltb (length line) (decode_uu_char_workaround c)) (bad_line r) _ t
          (add_decoded-IsTracked r _ short t))
        (add_decoded-IsTracked r _ full t)

  decode_uu_line-IsTracked :
      (r : Response) (line : Bytes) → IsTracked r → IsTracked (decode_uu_line d r line)
  unfolding decode_uu_line
  decode_uu_line-IsTracked r line t =
      if-IsTracked _ r (decode_uu_data d r (unstuff line)) t
        (decode_uu_data-IsTracked r (unstuff line) t)

  pub decode_uu-IsTracked :
      (r : Response) (line : Bytes) → IsTracked r → IsTracked (decode_uu d r line)
  unfolding decode_uu
  decode_uu-IsTracked r line t =
      let q = if not r.body && is_full_line line then record r { body = true } else r in
      let begun = if-IsTracked (not r.body && is_full_line line) (record r { body = true }) r t t in
      let finished =
        with_meta (record q { body = false })
          (λ m. record m { file_size = q.metadata.bytes_produced }) in
      let opened =
        with_meta (record r { body = true }) (λ m. record m { file_name = begin_name d line }) in
      if-IsTracked (not r.body && has_prefix line (codes "begin ")) opened _ t (
        if-IsTracked q.body _ q
          (if-IsTracked (equal line (codes "`") || equal line (codes "end")) finished
            (decode_uu_line d q line) begun (decode_uu_line-IsTracked q line begun))
          begun)
