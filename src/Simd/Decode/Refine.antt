-- ===== src/Simd/Decode/Refine.antt =====
-- `decodeSIMD` against the automaton, for any kernel that decodes what it takes.
use rapidyenc.Base.{
  ℕ, true, append-nil, lt→ltb, Bool-cases, ltb→lt, leb-lt, inl, inr, ◌≤◌, ◌<◌, ◌+◌, ◌-◌, ◌*◌, [],
  ◌++◌, ◌≡◌, refl, ap, ◌∙◌, arith, Bytes, length, take, drop, length-append, length-take,
  length-drop, take-append-drop, drop-add, Outcome, ret, ltb, leb, ◌==◌,
}
use rapidyenc.Decoder.{State, End, control, article, Decoded}
use rapidyenc.Decoder.Refine.{Refines, decode_generic-Refines}
use rapidyenc.Simd.Decode.{
  Vectors, Kernel, Probe, found, start, probe, escape_first, kernel_state, behind_call, scalar_tail,
  from_probe, vector_part, aligned, decode_simd,
}
use rapidyenc.Simd.Decode.Probes.{Tells, probe-Tells, starts}
use rapidyenc.Simd.Decode.Parts.{
  Takes, takes_nothing, takes_both, last_part, first_part, all_said, first_left,
}

-- What a kernel call returns: a part of `src`, with at least four bytes left, since it has to see
-- what stands behind a line end.
pub record IsVectors (s : State) (src : Bytes) (k : Vectors) : Type 0 where
  pub leaves : k.consumed + 4 ≤ length src
  pub part : Takes s src k.consumed k.written (kernel_state k.esc_first k.next_mask)

-- A kernel that decodes what it takes, wherever `dest` has the room of `src`.
abbrev pub IsKernel : ℕ → Kernel → Type 0
IsKernel width kernel =
    (dest_len : ℕ) (src : Bytes) (esc mask : ℕ)
    → width + 3 < length src
    → length src ≤ dest_len
    → esc ≤ 1
    → mask ≤ 2
    → starts esc mask src ≡ true
    → (k : Vectors) × (kernel dest_len src esc mask ≡ ret k)
      × IsVectors (kernel_state esc mask) src k

-- The outcome is a result that refines the automaton.
abbrev pub Decodes : State → Bytes → Outcome Decoded → Type 0
Decodes s src r = (d : Decoded) × (r ≡ ret d) × Refines s src d

escape_first_le : (s : State) → escape_first s ≤ 1
unfolding escape_first
escape_first_le s = ground arith

module _ (width : ℕ) (kernel : Kernel) where
  scalar_tail-Decodes :
      (dest_len left n : ℕ) (out src : Bytes) {s t : State}
      → 0 < left
      → length src ≤ dest_len
      → Takes s src n out t
      → Decodes s src (scalar_tail width kernel dest_len left n out (drop n src) t)
  unfolding scalar_tail
  scalar_tail-Decodes dest_len left n out src {s} {t} pos h a =
      let (d, e, w) =
        decode_generic-Refines (dest_len - length out) (drop n src) t
          (omega (arith, length-drop n src, a.fits, a.inside)) in
      rw (lt→ltb 0 left pos, e) (behind_call n out d, refl, last_part d a w)

  module _ (is_kernel : IsKernel width kernel) (wide : 0 < width) where
    from_probe-Decodes :
        (dest_len left n : ℕ) (out src : Bytes) {s t : State} (p : Probe)
        → width + 3 < left
        → length (drop n src) ≤ left + 2
        → left ≤ length (drop n src)
        → length src ≤ dest_len
        → Takes s src n out t
        → ((more : Bytes) → Tells t (drop n src) more p)
        → Decodes s src (from_probe width kernel dest_len left n out (drop n src) t p)
    unfolding from_probe
    from_probe-Decodes dest_len left n out src {s} {t} (found m u e) long l1 l2 h a tells =
        let d : Decoded = record { n_src = m; decoded = []; state = u; ended = e } in
        let w : Refines t (drop n src) d = record {
          inside = (tells []).0;
          fits = omega arith;
          left = (tells []).1;
          resumes = λ more. (tells more).2;
        } in
        let r : Refines s src (record d { n_src = n + m; decoded = out }) =
          rw append-nil at (last_part d a w) in
        (_, refl, r)
    from_probe-Decodes dest_len left n out src {s} {t} (start mask) long l1 l2 h a tells =
        let (k, e, w) =
          is_kernel (dest_len - length out) (drop n src) (escape_first t) mask (omega arith)
            (omega (arith, length-drop n src, a.fits, a.inside)) (escape_first_le t) (tells []).0
            (tells []).1 in
        let through : Takes t (drop n src) k.consumed k.written _ = record {
          inside = w.part.inside;
          fits = w.part.fits;
          reads = λ more. w.part.reads more ∙ (tells more).2;
        } in
        let tail =
          scalar_tail-Decodes dest_len (left - k.consumed) (n + k.consumed) (out ++ k.written) src
            (omega (arith, w.leaves)) h (takes_both a through) in
        rw e (rw (drop-add n k.consumed src) at tail)

    vector_part-Decodes :
        (dest_len left n : ℕ) (out src : Bytes) {s t : State}
        → 0 < left
        → length (drop n src) ≤ left + 2
        → left ≤ length (drop n src)
        → length src ≤ dest_len
        → Takes s src n out t
        → Decodes s src (vector_part width kernel dest_len left n out (drop n src) t)
    unfolding vector_part
    vector_part-Decodes dest_len left n out src {s} {t} pos l1 l2 h a =
        elim (Bool-cases (ltb (width - 1 + 4) left)) [
          | inl long ↦ rw long (
              from_probe-Decodes dest_len left n out src (probe t (drop n src))
                (omega (arith, ltb→lt _ _ long)) l1 l2 h a
                (λ more. probe-Tells more t (drop n src) (omega (arith, ltb→lt _ _ long))))
          | inr short ↦ rw short (scalar_tail-Decodes dest_len left n out src pos h a)
        ]

    aligned-Decodes :
        (dest_len : ℕ) (a b : Bytes) (s : State) (d : Decoded) (e : End)
        → 0 < length b
        → length (a ++ b) ≤ dest_len
        → Refines s a d
        → d.ended ≡ e
        → Decodes s (a ++ b) (aligned width kernel dest_len (length b) (drop d.n_src (a ++ b)) d e)
    unfolding aligned
    aligned-Decodes dest_len a b s d End.none long h w e =
        vector_part-Decodes dest_len (length b) d.n_src d.decoded (a ++ b) (omega arith)
          (omega (arith, length-drop d.n_src (a ++ b), length-append a b, first_left a b d w e))
          (omega (arith, length-drop d.n_src (a ++ b), length-append a b, w.inside)) h
          (first_part a b d w e)
    aligned-Decodes dest_len a b s d control long h w e = (d, refl, all_said a b d w (ground arith))
    aligned-Decodes dest_len a b s d article long h w e = (d, refl, all_said a b d w (ground arith))

    -- For every kernel that, started with an escape or a mask that is true of the first bytes, decodes
    -- what it takes and leaves four bytes, `decodeSIMD` returns, wherever `src` stands in memory and with room in `dest` for as many bytes as `src` holds: its output,
    -- state and end, resumed on the bytes that it left and any that come later, give what the automaton
    -- gives on `src` and those. It produces no more bytes than it takes, and without an end it leaves
    -- nothing unread, but for "\r\n" in the state behind a line end.
    pub decode_simd-Decodes :
        (address dest_len : ℕ) (src : Bytes) (s : State)
        → address < width
        → length src ≤ dest_len
        → Decodes s src (decode_simd width kernel address dest_len src s)
    unfolding decode_simd
    decode_simd-Decodes address dest_len src s below h =
        elim (Bool-cases (leb (length src) (width * 2))) [
          | inl short ↦ rw short (decode_generic-Refines dest_len src s h)
          | inr long ↦ rw long (elim (Bool-cases (width - address == width)) [
            | inl at_once ↦ rw at_once (
                vector_part-Decodes dest_len (length src) 0 [] src (omega (arith, leb-lt _ _ long))
                  (omega arith) (omega arith) h (takes_nothing s src))
            | inr later ↦ rw later (
                let alignment = width - address in
                let a = take alignment src in
                let b = drop alignment src in
                let whole = take-append-drop alignment src in
                let (d, e, w) =
                  decode_generic-Refines dest_len a s (omega (arith, length-take alignment src)) in
                let rest =
                  aligned-Decodes dest_len a b s d d.ended
                    (omega (arith, length-drop alignment src, leb-lt _ _ long))
                    (omega (arith, ap length whole)) w refl in
                rw e (rw (whole, length-drop alignment src) at rest))
          ])
        ]
