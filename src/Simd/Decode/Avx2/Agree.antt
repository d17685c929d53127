-- ===== src/Simd/Decode/Avx2/Agree.antt =====
-- `decodeAVX2` and `decodeGeneric` on the same slice: which of them runs does not show in what is
-- decoded.
use mathlib.Core.Path.{subst}
use rapidyenc.Base.{◌≤◌, ◌<◌, ℕ, ◌≡◌, sym, ◌∙◌, ◌++◌, Bytes, length, drop, ret}
use rapidyenc.Decoder.{State, Decoded, decode_generic}
use rapidyenc.Decoder.Refine.{Refines, returned-Refines, ret-injective}
use rapidyenc.Decoder.Simulation.{resume}
use rapidyenc.Simd.Decode.Avx2.Loop.{decode_avx2}
use rapidyenc.Simd.Decode.Avx2.Refine.{decode_avx2-Decodes}

-- Where both are called on the same slice from the same state, with room for as many bytes as it
-- holds, what `decodeAVX2` returned, resumed on the bytes that it left and any that come later, gives
-- the output, the state, the end and the unread bytes that `decodeGeneric` gives with those.
pub decode_avx2-decode_generic :
    (address dest_len : ℕ) (src : Bytes) (s : State) (d e : Decoded)
    → address < 64
    → length src ≤ dest_len
    → decode_avx2 address dest_len src s ≡ ret d
    → decode_generic dest_len src s ≡ ret e
    → (more : Bytes) → resume d (drop d.n_src src ++ more) ≡ resume e (drop e.n_src src ++ more)
decode_avx2-decode_generic address dest_len src s d e below room p q more =
    let (d', r, w) = decode_avx2-Decodes address dest_len src s below room in
    let same : d' ≡ d = ret-injective (sym r ∙ p) in
    let v : Refines s src d = subst (Refines s src) same w in
    v.resumes more ∙ sym ((returned-Refines dest_len src s e room q).resumes more)
