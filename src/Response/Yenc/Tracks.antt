-- ===== src/Response/Yenc/Tracks.antt =====
-- response.go, `decodeYenc`: the checksum and the size that it keeps are those of the data.
use rapidyenc.Base.{
  ℕ, ◌+◌, Option, none, some, [], ◌∷◌, ◌++◌, ◌≡◌, refl, sym, ap, ◌∙◌, arith, Bytes, All, All-append,
  IsByte, length, length-append, ltb, Bool-cases, inl, inr, Outcome, ret, panic, stuck, ◌>>=◌,
}
use rapidyenc.Base.Int.{ℤ, pos}
use rapidyenc.Go.Int64.{add_int64, wrap64, add_int64-wrap64}
use rapidyenc.Go.Crc32.{update}
use rapidyenc.Crc.Linear.{update-append}
use rapidyenc.Decoder.{State, End, Decoded, decode_generic}
use rapidyenc.Decoder.Output.{decode_generic-IsBytes}
use rapidyenc.Response.{Response, ResponseMeta, Buffer, Decoder}
use rapidyenc.Response.Yenc.{
  bytes_of, current_buffer, first_buffer, fit, ensure_data, take_decoded, at_end, decode_yenc,
}
use rapidyenc.Response.Yenc.Body.{grow-bytes}

-- The data of a response with its checksum and its size, on an int64.
pub record Tracks (held : Option Buffer) (crc : ℕ) (produced : ℤ) : Type 0 where
  pub bytes : All IsByte (bytes_of held)
  pub summed : crc ≡ update 0 (bytes_of held)
  pub counted : produced ≡ wrap64 (pos (length (bytes_of held)))

abbrev pub IsTracked : Response → Type 0
IsTracked r = Tracks r.contents r.metadata.crc r.metadata.bytes_produced

fit-bytes : (d : Decoder) (b : Buffer) (buf : Bytes) → (fit d b buf).0.bytes ≡ b.bytes
unfolding fit
fit-bytes d b buf = ground (arith, grow-bytes d b (length b.bytes + length buf))

current_buffer-bytes :
    (d : Decoder) (m : ResponseMeta) (o : Option Buffer) → (current_buffer d m o).bytes ≡ bytes_of o
unfolding first_buffer
current_buffer-bytes d m none = refl
current_buffer-bytes d m (some b) = refl

ensure_data-bytes :
    (d : Decoder) (r : Response) (buf : Bytes) → (ensure_data d r buf).0.bytes ≡ bytes_of r.contents
unfolding ensure_data
ensure_data-bytes d r buf =
    fit-bytes d (current_buffer d r.metadata r.contents) buf
    ∙ current_buffer-bytes d r.metadata r.contents

-- Bytes behind the data, with the checksum and the size brought up to date.
pub Tracks-append :
    (o q : Option Buffer) (crc : ℕ) (produced : ℤ) (decoded : Bytes)
    → Tracks o crc produced
    → bytes_of q ≡ bytes_of o ++ decoded
    → All IsByte decoded
    → Tracks q (update crc decoded) (add_int64 produced (pos (length decoded)))
Tracks-append o q crc produced decoded t same b = record {
  bytes = rw same (All-append IsByte (bytes_of o) decoded t.bytes b);
  summed = rw (same, t.summed) (update-append 0 (bytes_of o) decoded t.bytes);
  counted =
      rw (same, t.counted)
        (add_int64-wrap64 (length (bytes_of o)) (length decoded)
          ∙ ap (λ n. wrap64 (pos n)) (sym (length-append (bytes_of o) decoded)));
}

take_decoded-IsTracked :
    (r : Response) (b : Buffer) (d : Decoded)
    → IsTracked r
    → b.bytes ≡ bytes_of r.contents
    → All IsByte d.decoded
    → IsTracked (take_decoded r b d)
unfolding take_decoded
take_decoded-IsTracked r b d t same bytes = elim (Bool-cases (ltb 0 (length d.decoded))) [
  | inl more ↦
      rw more (Tracks-append r.contents _ _ _ d.decoded t (ap (λ x. x ++ d.decoded) same) bytes)
  | inr nothing ↦
      rw nothing
        (record { bytes = rw same t.bytes; summed = rw same t.summed; counted = rw same t.counted })
]

at_end-IsTracked :
    (r : Response) (n : ℕ) (s : State) (e : End) → IsTracked r → IsTracked (at_end r n s e).1
unfolding at_end
at_end-IsTracked r n s e t = ground arith

-- What holds of the response that a call returns, if it returns one.
abbrev pub Leaves : (Response → Type 0) → Outcome (ℤ × Response) → Type 0
Leaves P (ret (n, r)) = P r
Leaves P _ = Unit

decoded-IsTracked :
    (r : Response) (b : Buffer) (o : Outcome Decoded)
    → IsTracked r
    → b.bytes ≡ bytes_of r.contents
    → ((d : Decoded) → o ≡ ret d → All IsByte d.decoded)
    → Leaves IsTracked (o >>= λ d. ret (at_end (take_decoded r b d) d.n_src d.state d.ended))
decoded-IsTracked r b (ret d) t same bytes =
    at_end-IsTracked (take_decoded r b d) d.n_src d.state d.ended
      (take_decoded-IsTracked r b d t same (bytes d refl))
decoded-IsTracked r b panic t same bytes = tt
decoded-IsTracked r b stuck t same bytes = tt

pub decode_yenc-IsTracked :
    (d : Decoder) (r : Response) (buf : Bytes)
    → IsTracked r
    → Leaves IsTracked (decode_yenc d r buf)
unfolding decode_yenc
decode_yenc-IsTracked d r [] t = t
decode_yenc-IsTracked d r (c ∷ cs) t =
    let b = (ensure_data d r (c ∷ cs)).0 in
    let part = (ensure_data d r (c ∷ cs)).1 in
    elim (Bool-cases (ltb b.capacity (length b.bytes + length part))) [
      | inl outside ↦ rw outside tt
      | inr inside ↦ rw inside (
          decoded-IsTracked r b (decode_generic (length part) part r.state) t
            (ensure_data-bytes d r (c ∷ cs))
            (λ e returns.
              decode_generic-IsBytes (length part) part r.state e (omega arith) returns))
    ]
