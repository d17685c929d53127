-- ===== src/Simd/Decode/Probes.antt =====
-- What stands before the kernel in `decodeSIMD`: the ends that are found without it, and the states
-- for which the kernel has only a mask and an escape.
use rapidyenc.Base.{
  ℕ, ◌==◌, Bool, not, true, ◌&&◌, ◌||◌, codes, if◌then◌else◌, ◌≤◌, [], ◌∷◌, ◌++◌, ◌≡◌, arith, Bytes,
  length, drop,
}
use rapidyenc.Go.ByteStrings.{has_prefix}
use rapidyenc.Decoder.{State, crlf, eq, cr, crlfdt, crlfdtcr, crlfeq}
use rapidyenc.Decoder.Automaton.{read}
use rapidyenc.Decoder.Simulation.{Left, resume_as}
use rapidyenc.Simd.Decode.{Probe, found, start, probe, escape_first, kernel_state}

-- "\r\n" or "=y" behind a stuffed dot.
abbrev pub ends_line : Bytes → Bool
ends_line src = has_prefix src (codes "\r\n") || has_prefix src (codes "=y")

-- What the kernel may count on: with a mask the dot stands where the mask says, no end stands behind
-- it, and no byte is to be unescaped.
unfoldable pub starts : ℕ → ℕ → Bytes → Bool
unfolding has_prefix
starts esc mask src =
    if mask == 1
    then esc == 0 && (has_prefix src (codes ".") && not (ends_line (drop 1 src)))
    else if mask == 2
    then esc == 0 && (has_prefix src (codes "\n.") && not (ends_line (drop 2 src)))
    else true

-- What a probe says of `src` read from the state `s`.
abbrev pub Tells : State → Bytes → Bytes → Probe → Type 0
Tells s src more (found n t e) =
    (n ≤ length src)
    × Left e t (drop n src)
    × (resume_as e [] t (drop n src ++ more) ≡ read [] s (src ++ more))
Tells s src more (start mask) =
    (mask ≤ 2)
    × (starts (escape_first s) mask src ≡ true)
    × (read [] (kernel_state (escape_first s) mask) (src ++ more) ≡ read [] s (src ++ more))

module _ (more : Bytes) where
  pub probe-Tells : (s : State) (src : Bytes) → 4 ≤ length src → Tells s src more (probe s src)
  unfolding probe has_prefix starts read escape_first kernel_state
  probe-Tells crlf (a ∷ b ∷ c ∷ d ∷ r) h = ground arith
  probe-Tells eq (a ∷ b ∷ c ∷ d ∷ r) h = ground arith
  probe-Tells cr (a ∷ b ∷ c ∷ d ∷ r) h = ground arith
  probe-Tells crlfdt (a ∷ b ∷ c ∷ d ∷ r) h = ground arith
  probe-Tells crlfdtcr (a ∷ b ∷ c ∷ d ∷ r) h = ground arith
  probe-Tells crlfeq (a ∷ b ∷ c ∷ d ∷ r) h = ground arith
  probe-Tells State.none (a ∷ b ∷ c ∷ d ∷ r) h = ground arith
  probe-Tells s [] h = absurd (omega arith)
  probe-Tells s (a ∷ []) h = absurd (omega arith)
  probe-Tells s (a ∷ b ∷ []) h = absurd (omega arith)
  probe-Tells s (a ∷ b ∷ c ∷ []) h = absurd (omega arith)
