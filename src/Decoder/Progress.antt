-- ===== src/Decoder/Progress.antt =====
-- Decoding in pieces: what `decodeGeneric` carries over from one call to the next is enough.
use rapidyenc.Base.{
  ℕ, ◌≤◌, ◌+◌, [], ◌∷◌, ◌++◌, ◌≡◌, refl, sym, ap, ◌∙◌, arith, Bytes, length, length-append,
  drop-append_le, drop-add, drop, length-drop, append_assoc, append-nil, ret,
}
use rapidyenc.Decoder.{State, End, Decoded, decode_generic}
use rapidyenc.Decoder.Automaton.{Act, emit, skip, halt, act, Result, on_byte, read}
use rapidyenc.Decoder.Simulation.{resume_as, resume}
use rapidyenc.Decoder.Refine.{returned-Refines}

-- A result with bytes decoded before it.
abbrev pub behind : Bytes → Result → Result
behind o r = record r { out = o ++ r.out }

act-behind :
    (o out cs : Bytes) (a : Act)
    → ((u : Bytes) (t : State) → read (o ++ u) t cs ≡ behind o (read u t cs))
    → act (λ u t. read u t cs) (o ++ out) cs a ≡ behind o (act (λ u t. read u t cs) out cs a)
act-behind o out cs (emit b t) ih = rw append_assoc (ih (out ++ (b ∷ [])) t)
act-behind o out cs (skip t) ih = ih out t
act-behind o out cs (halt t e) ih = refl

pub read-append :
    (o out : Bytes) (s : State) (cs : Bytes) → read (o ++ out) s cs ≡ behind o (read out s cs)
unfolding read
read-append o out s [] = refl
read-append o out s (c ∷ cs) = act-behind o out cs (on_byte s c) (λ u t. read-append o u t cs)

pub read_from : (o : Bytes) (s : State) (cs : Bytes) → read o s cs ≡ behind o (read [] s cs)
read_from o s cs = rw append-nil at (read-append o [] s cs)

-- A result with the bytes of an earlier call before it.
abbrev pub join : Decoded → Decoded → Decoded
join d e = record e { n_src = d.n_src + e.n_src; decoded = d.decoded ++ e.decoded }

pub resume_as-append :
    (e : End) (o out : Bytes) (s : State) (rest : Bytes)
    → resume_as e (o ++ out) s rest ≡ behind o (resume_as e out s rest)
resume_as-append End.none o out s rest = read-append o out s rest
resume_as-append e o out s rest = refl

-- A stream may be cut anywhere before an end: with room in `dest` for as many bytes as `a ++ b` holds,
-- and where the call on the first part `a` comes to no end, decoding `a`, and then what was left of `a`
-- with the second part `b` from the state that the first call returned, gives together what one call
-- on `a ++ b` gives. Resumed on the bytes that are left and any that come later, both give the same
-- output, state, end and unread bytes.
pub decode_generic_split :
    (dest_len : ℕ) (a b : Bytes) (s : State) (d e whole : Decoded)
    → length (a ++ b) ≤ dest_len
    → decode_generic dest_len a s ≡ ret d
    → d.ended ≡ End.none
    → decode_generic dest_len (drop d.n_src a ++ b) d.state ≡ ret e
    → decode_generic dest_len (a ++ b) s ≡ ret whole
    → (more : Bytes)
    → resume (join d e) (drop (d.n_src + e.n_src) (a ++ b) ++ more)
      ≡ resume whole (drop whole.n_src (a ++ b) ++ more)
decode_generic_split dest_len a b s d e whole h p q r t more =
    let first = returned-Refines dest_len a s d (omega (arith, length-append a b)) p in
    let left = drop d.n_src a in
    let second =
      returned-Refines dest_len (left ++ b) d.state e
        (omega (arith, length-append a b, length-append left b, length-drop d.n_src a)) r in
    let together = returned-Refines dest_len (a ++ b) s whole h t in
    rw (drop-add d.n_src e.n_src (a ++ b), drop-append_le d.n_src a b first.inside)
      (resume_as-append e.ended d.decoded e.decoded e.state _
        ∙ ap (behind d.decoded) (second.resumes more)
        ∙ sym (read_from d.decoded d.state ((left ++ b) ++ more))
        ∙ ap (read d.decoded d.state) (append_assoc left b more)
        ∙ ap (λ x. resume_as x d.decoded d.state (left ++ (b ++ more))) (sym q)
        ∙ first.resumes (b ++ more)
        ∙ ap (read [] s) (sym (append_assoc a b more))
        ∙ sym (together.resumes more))
