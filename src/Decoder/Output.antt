-- ===== src/Decoder/Output.antt =====
-- What `decodeGeneric` writes are bytes.
use rapidyenc.Base.{
  ℕ, ◌≤◌, ◌≡◌, arith, [], ◌∷◌, ◌++◌, Bytes, All, All-append, All-append_inv, IsByte, length, drop,
  ret,
}
use rapidyenc.Decoder.{State, End, control, article, Decoded, decode_generic}
use rapidyenc.Decoder.Automaton.{Act, emit, skip, halt, act, on_byte, on_none, on_eq, read}
use rapidyenc.Decoder.Simulation.{resume_as}
use rapidyenc.Decoder.Refine.{returned-Refines}
use rapidyenc.Decoder.Progress.{read_from}

abbrev Emits : Act → Type 0
Emits (emit b t) = IsByte b
Emits (skip t) = Unit
Emits (halt t e) = Unit

on_byte-Emits : (s : State) (c : ℕ) → Emits (on_byte s c)
unfolding on_byte on_none on_eq
on_byte-Emits s c = ground arith

act-IsBytes :
    (out cs : Bytes) (a : Act)
    → Emits a
    → All IsByte out
    → ((u : Bytes) (t : State) → All IsByte u → All IsByte (read u t cs).out)
    → All IsByte (act (λ u t. read u t cs) out cs a).out
act-IsBytes out cs (emit b t) e h ih = ih (out ++ (b ∷ [])) t (All-append IsByte out _ h (e, tt))
act-IsBytes out cs (skip t) e h ih = ih out t h
act-IsBytes out cs (halt t e') e h ih = h

read-IsBytes :
    (out : Bytes) (s : State) (cs : Bytes) → All IsByte out → All IsByte (read out s cs).out
unfolding read
read-IsBytes out s [] h = h
read-IsBytes out s (c ∷ cs) h =
    act-IsBytes out cs (on_byte s c) (on_byte-Emits s c) h (λ u t. read-IsBytes u t cs)

resume_as-front :
    (e : End) (out : Bytes) (s : State) (rest : Bytes)
    → All IsByte (resume_as e out s rest).out
    → All IsByte out
resume_as-front End.none out s rest h =
    (All-append_inv IsByte out _ (rw (read_from out s rest) at h)).0
resume_as-front control out s rest h = h
resume_as-front article out s rest h = h

-- Whatever it reads, `decodeGeneric` gives bytes.
pub decode_generic-IsBytes :
    (dest_len : ℕ) (src : Bytes) (s : State) (d : Decoded)
    → length src ≤ dest_len
    → decode_generic dest_len src s ≡ ret d
    → All IsByte d.decoded
decode_generic-IsBytes dest_len src s d h e =
    let w = returned-Refines dest_len src s d h e in
    resume_as-front d.ended d.decoded d.state (drop d.n_src src ++ [])
      (rw (w.resumes []) (read-IsBytes [] s (src ++ []) tt))
