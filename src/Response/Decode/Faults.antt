-- ===== src/Response/Decode/Faults.antt =====
-- response.go, `decode`: an article whose end is split between two reads.
use rapidyenc.Base.{
  ◌+◌, ◌≤◌, true, some, [], ◌∷◌, ◌≡◌, refl, ◌∙◌, ap, ◌&&◌, arith, Bytes, length, ret, panic,
}
use rapidyenc.Base.Int.{◌-ℤ◌}
use rapidyenc.Decoder.{crlf, crlfdt, article, Decoded, decode_generic}
use rapidyenc.Decoder.Automaton.{read}
use rapidyenc.Decoder.Refine.{decode_generic-read}
use rapidyenc.Response.{Response, Buffer, Decoder, yenc}
use rapidyenc.Response.Yenc.Body.{decode_yenc_room, at_end-article}
use rapidyenc.Response.Decode.{decode, is_yenc}

read_end :
    (rest : Bytes)
    → read [] crlfdt (b'\r' ∷ b'\n' ∷ rest)
      ≡ record { out = []; state = crlf; ended = article; rest = rest }
unfolding read
read_end rest = refl

decodes_end :
    (rest : Bytes)
    → decode_generic (length (b'\r' ∷ b'\n' ∷ rest)) (b'\r' ∷ b'\n' ∷ rest) crlfdt
      ≡ ret (record { n_src = 2; decoded = []; state = crlf; ended = article })
decodes_end rest =
    decode_generic-read _ (b'\r' ∷ b'\n' ∷ rest) crlfdt _ (omega arith) (read_end rest) (λ p. cc)
    ∙ ap (λ n. ret (record { n_src = n; decoded = []; state = crlf; ended = article }))
        (omega arith)

-- In a yEnc body, where the bytes read so far ended in "\r\n." (the state says so) and there is room for
-- the next ones, `decode` panics on every input that goes on with "\r\n": three bytes are taken back
-- where two were read, and `buf[n:]` has a negative `n`.
pub decode-panics :
    (d : Decoder) (r : Response) (b : Buffer) (rest : Bytes)
    → r.body ≡ true
    → r.metadata.format ≡ yenc
    → r.state ≡ crlfdt
    → r.contents ≡ some b
    → length b.bytes + length (b'\r' ∷ b'\n' ∷ rest) ≤ b.capacity
    → decode d r (b'\r' ∷ b'\n' ∷ rest) ≡ panic
unfolding decode ◌-ℤ◌
decode-panics d r b rest body format state held room =
    let in_body : (r.body && is_yenc r.metadata.format) ≡ true = rw (body, format) refl in
    let last : Decoded = record { n_src = 2; decoded = []; state = crlf; ended = article } in
    let ends =
      decode_yenc_room d r b b'\r' (b'\n' ∷ rest) last held room (rw state (decodes_end rest)) in
    rw (in_body, ends, at_end-article) refl
