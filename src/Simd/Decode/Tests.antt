-- ===== src/Simd/Decode/Tests.antt =====
-- `decodeSIMD` with a kernel that decodes the plain bytes in front, one at a time.
use rapidyenc.Base.{
  ℕ, suc, ◌≤◌, ◌+◌, [], ◌∷◌, ◌++◌, ◌≡◌, refl, arith, Bool, true, false, ◌&&◌, ◌||◌, not, Bool-cases,
  inl, inr, Bytes, codes, replicate, length, ret, ltb, ◌==◌, if◌then◌else◌,
}
use rapidyenc.Decoder.{State, crlf, article, plain, decode_generic}
use rapidyenc.Decoder.Automaton.{read}
use rapidyenc.Decoder.Progress.{read_from}
use rapidyenc.Simd.Decode.{Kernel, decode_simd, kernel_state}
use rapidyenc.Simd.Decode.Parts.{Takes, takes_nothing, takes_both}
use rapidyenc.Simd.Decode.Refine.{IsKernel, Decodes, decode_simd-Decodes}

abbrev is_special : ℕ → Bool
is_special c = c == b'\r' || c == b'\n' || c == b'='

-- The plain bytes in front of the last four.
abbrev plains : Bytes → Bytes
plains [] = []
plains (c ∷ r) =
    let out = plain c ∷ plains r in if ltb 3 (length r) && not (is_special c) then out else []

unfoldable plain_kernel : Kernel
plain_kernel dest_len src esc mask =
    let idle = ret (record { consumed = 0; written = []; esc_first = esc; next_mask = mask }) in
    let out = plains src in
    if esc == 0 && mask == 0
    then ret (record { consumed = length out; written = out; esc_first = 0; next_mask = 0 })
    else idle

plains-leave : (src : Bytes) → 4 ≤ length src → length (plains src) + 4 ≤ length src
plains-leave [] h = absurd (omega arith)
plains-leave (c ∷ r) h = ground (arith, plains-leave r)

plain-Takes :
    (c : ℕ) (r : Bytes)
    → is_special c ≡ false
    → Takes State.none (c ∷ r) 1 (plain c ∷ []) State.none
unfolding read
plain-Takes c r h = record {
  inside = omega arith;
  fits = omega arith;
  reads = λ more. ground (arith, read_from (plain c ∷ []) State.none (r ++ more));
}

one_more : (n : ℕ) → 1 + n ≡ suc n
one_more n = omega arith

and_false : (b : Bool) → (b && false) ≡ false
and_false b = ground arith

plains-Takes : (src : Bytes) → Takes State.none src (length (plains src)) (plains src) State.none
plains-Takes [] = takes_nothing _ _
plains-Takes (c ∷ r) = elim (Bool-cases (is_special c)) [
  | inl special ↦ rw (special, and_false) (takes_nothing State.none (c ∷ r))
  | inr ordinary ↦ elim (Bool-cases (ltb 3 (length r))) [
    | inl far ↦
        rw (ordinary, far) (rw one_more at (takes_both (plain-Takes c r ordinary) (plains-Takes r)))
    | inr near ↦ rw (ordinary, near) (takes_nothing State.none (c ∷ r))
  ]
]

both_zero : (a b : ℕ) → (a == 0 && b == 0) ≡ true → (a ≡ 0) × (b ≡ 0)
both_zero a b h = ground arith

plain_kernel-IsKernel : IsKernel 16 plain_kernel
unfolding plain_kernel kernel_state
plain_kernel-IsKernel dest_len src esc mask long room e m st =
    elim (Bool-cases (esc == 0 && mask == 0)) [
      | inl both ↦ rw both (
        _,
        refl,
        rw (both_zero esc mask both).0 (
            rw (both_zero esc mask both).1
              (record { leaves = plains-leave src (omega arith); part = plains-Takes src })),
      )
      | inr other ↦ rw other (_, refl, record { leaves = omega arith; part = takes_nothing _ src })
    ]

-- A slice that starts at an unaligned address, with a line end and the end of the article behind 30
-- plain bytes.
abbrev long_line : Bytes
long_line = replicate 30 b'k' ++ codes "\r\n.\r\nzzzz"

long_line_decoded :
    decode_simd 16 plain_kernel 13 39 long_line State.none
    ≡ ret (record { n_src = 35; decoded = replicate 30 65; state = crlf; ended = article })
unfolding decode_simd plain_kernel decode_generic
long_line_decoded = refl

decode_simd-Decodes_example :
    Decodes State.none long_line (decode_simd 16 plain_kernel 13 39 long_line State.none)
decode_simd-Decodes_example =
    decode_simd-Decodes 16 plain_kernel plain_kernel-IsKernel (omega arith) 13 39 long_line
      State.none (omega arith) (omega arith)
