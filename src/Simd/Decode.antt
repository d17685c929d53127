-- ===== src/Simd/Decode.antt =====
-- decoder_simd.go: `decodeSIMD`. `dotUnstuffing` and `searchEnd` are set, as they are in the code. The
-- kernel writes to `dest[produced:]`, whose length it is given, and returns four values, of which the
-- bytes that it wrote stand for their number.
pub mod Probes
pub mod Parts
pub mod Refine
pub mod Avx2
mod Tests
use rapidyenc.Base.{
  ℕ, ◌+◌, ◌-◌, ◌*◌, Bool, true, false, ◌&&◌, [], ◌∷◌, ◌++◌, Bytes, codes, length, take, drop, ltb,
  leb, ◌==◌, if◌then◌else◌, Outcome, ret, panic, ◌>>=◌,
}
use rapidyenc.Go.ByteStrings.{has_prefix}
use rapidyenc.Decoder.{
  State, crlf, eq, cr, crlfdt, crlfdtcr, crlfeq, End, control, article, Decoded, decode_generic,
}

-- What a kernel returns.
pub record Vectors : Type 0 where
  pub consumed : ℕ
  pub written : Bytes
  pub esc_first : ℕ
  pub next_mask : ℕ

abbrev pub Kernel : Type 0
Kernel = ℕ → Bytes → ℕ → ℕ → Outcome Vectors

-- `switch state` before the kernel: an end that stands right here, or the mask to start with.
pub data Probe : Type 0 where
  found : ℕ → State → End → Probe
  start : ℕ → Probe

unfoldable pub probe : State → Bytes → Probe
unfolding has_prefix
probe crlf src =
    if has_prefix src (codes ".")
    then (if has_prefix src (codes ".\r\n")
        then found 3 crlf article
        else if has_prefix src (codes ".=y")
        then found 3 State.none control
        else start 1)
    else if has_prefix src (codes "=y")
    then found 2 State.none control
    else start 0
probe cr src =
    if has_prefix src (codes "\n.")
    then (if has_prefix src (codes "\n.\r\n")
        then found 4 crlf article
        else if has_prefix src (codes "\n.=y")
        then found 4 State.none control
        else start 2)
    else if has_prefix src (codes "\n=y")
    then found 3 State.none control
    else start 0
probe crlfdt src =
    if has_prefix src (codes "\r\n")
    then found 2 crlf article
    else if has_prefix src (codes "=y")
    then found 2 State.none control
    else start 0
probe crlfdtcr src = if has_prefix src (codes "\n") then found 1 crlf article else start 0
probe crlfeq src = if has_prefix src (codes "y") then found 1 State.none control else start 0
probe s src = start 0

-- `escFirst` before the kernel.
unfoldable pub escape_first : State → ℕ
escape_first eq = 1
escape_first crlfeq = 1
escape_first s = 0

-- `switch` behind the kernel.
unfoldable pub kernel_state : ℕ → ℕ → State
kernel_state esc mask =
    if ltb 0 esc then eq else if mask == 1 then crlf else if mask == 2 then cr else State.none

-- `consumed` and `dest[:produced]` before a call, put to what it returns.
abbrev pub behind_call : ℕ → Bytes → Decoded → Decoded
behind_call consumed produced d = record d {
  n_src = consumed + d.n_src;
  decoded = produced ++ d.decoded;
}

module _ (width : ℕ) (kernel : Kernel) where
  -- Behind the kernel: `if length > 0`. Where `length` were negative, it is 0 here.
  pub scalar_tail : ℕ → ℕ → ℕ → Bytes → Bytes → State → Outcome Decoded
  scalar_tail dest_len left consumed produced src s =
      if ltb 0 left
      then (do
        d ← decode_generic (dest_len - length produced) src s
        ret (behind_call consumed produced d))
      else ret (record { n_src = consumed; decoded = produced; state = s; ended = End.none })

  -- Behind `switch state`: an end, or the kernel and what follows it.
  pub from_probe : ℕ → ℕ → ℕ → Bytes → Bytes → State → Probe → Outcome Decoded
  unfolding scalar_tail escape_first kernel_state
  from_probe dest_len left consumed produced src s (found n t e) =
      ret (record { n_src = consumed + n; decoded = produced; state = t; ended = e })
  from_probe dest_len left consumed produced src s (start mask) = do
    k ← kernel (dest_len - length produced) src (escape_first s) mask
    scalar_tail dest_len (left - k.consumed) (consumed + k.consumed) (produced ++ k.written)
        (drop k.consumed src) (kernel_state k.esc_first k.next_mask)

  -- `if length > lenBuffer`, and what follows.
  pub vector_part : ℕ → ℕ → ℕ → Bytes → Bytes → State → Outcome Decoded
  unfolding scalar_tail from_probe probe
  vector_part dest_len left consumed produced src s =
      if ltb (width - 1 + 4) left
      then from_probe dest_len left consumed produced src s (probe s src)
      else scalar_tail dest_len left consumed produced src s

  -- Behind the call up to the first aligned address, with the rest of `src`.
  pub aligned : ℕ → ℕ → Bytes → Decoded → End → Outcome Decoded
  unfolding vector_part
  aligned dest_len left rest d End.none = vector_part dest_len left d.n_src d.decoded rest d.state
  aligned dest_len left rest d e = ret d

  -- `decodeSIMD`, with the address of `src[0]` modulo `width`, a power of two.
  unfoldable pub decode_simd : ℕ → ℕ → Bytes → State → Outcome Decoded
  unfolding aligned
  decode_simd address dest_len src s =
      let alignment = width - address in
      if leb (length src) (width * 2)
      then decode_generic dest_len src s
      else if alignment == width
      then vector_part dest_len (length src) 0 [] src s
      else (do
        d ← decode_generic dest_len (take alignment src) s
        aligned dest_len (length src - alignment) (drop d.n_src src) d d.ended)
