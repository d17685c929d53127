-- ===== src/Simd/Decode/Avx2/Refine.antt =====
-- `decodeSIMDAVX2` decodes what it takes: it is a kernel for `decodeSIMD`.
use rapidyenc.Base.{
  ℕ, zero, suc, ◌+◌, ◌-◌, ◌*◌, ◌/◌, ◌≤◌, ◌<◌, ◌≡◌, refl, sym, ap, ◌∙◌, arith, true, false, [], ◌∷◌,
  ◌++◌, Bytes, length, length-drop, length-replicate, take, drop, drop-add, replicate, ◌==◌, leb,
  ltb, le-ltb, leb→le, leb-lt, if◌then◌else◌, Bool-cases, inl, inr, Outcome, ret, panic, ◌>>=◌,
}
use rapidyenc.Go.ByteStrings.{has_prefix}
use rapidyenc.Decoder.{State}
use rapidyenc.Decoder.Automaton.{read}
use rapidyenc.Decoder.Progress.{behind}
use rapidyenc.Go.Word64.{value, word}
use rapidyenc.Simd.Decode.{Vectors, kernel_state}
use rapidyenc.Simd.Decode.Probes.{starts}
use rapidyenc.Simd.Decode.Refine.{IsVectors, Decodes, decode_simd-Decodes}
use rapidyenc.Simd.Decode.Avx2.Tables.{yenc_offset_of, min_mask_of, min_mask_1, min_mask_2}
use rapidyenc.Simd.Decode.Avx2.Loop.{
  Progress, blocks, mask_across, straddling, decode_simd_avx2, decode_avx2,
}
use rapidyenc.Simd.Decode.Avx2.Chains.{low_bit}
use rapidyenc.Simd.Decode.Avx2.Each.{skip, skip-drop}
use rapidyenc.Simd.Decode.Avx2.Lanes.{at_nl_dot, Seen, is_sound}
use rapidyenc.Simd.Decode.Avx2.Marks.{min_mask_for}
use rapidyenc.Simd.Decode.Avx2.Runs.{after}
use rapidyenc.Simd.Decode.Avx2.Blocks.{Holds}
use rapidyenc.Simd.Decode.Avx2.Rounds.{mask_for}
use rapidyenc.Simd.Decode.Avx2.Whole.{blocks_seen, Finished, blocks-Finished}

-- What the arguments of the kernel say of the first bytes.
abbrev seen_of : ℕ → ℕ → Seen
seen_of esc mask = record { esc = ltb 0 esc; dot = mask == 1; later = mask == 2 }

starts-is_sound :
    (esc mask : ℕ) (src : Bytes)
    → 4 ≤ length src
    → starts esc mask src ≡ true
    → is_sound (seen_of esc mask) src ≡ true
unfolding starts has_prefix
starts-is_sound esc mask [] h e = absurd (omega (arith, h))
starts-is_sound esc mask (a ∷ []) h e = absurd (omega (arith, h))
starts-is_sound esc mask (a ∷ b ∷ []) h e = absurd (omega (arith, h))
starts-is_sound esc mask (a ∷ b ∷ c ∷ []) h e = absurd (omega (arith, h))
starts-is_sound esc mask (a ∷ b ∷ c ∷ d ∷ r) h e = ground arith

min_mask_of-min_mask_for :
    (mask : ℕ) → mask ≤ 2 → min_mask_of mask ≡ min_mask_for (mask == 1) (mask == 2)
unfolding min_mask_of min_mask_1 min_mask_2
min_mask_of-min_mask_for zero h = refl
min_mask_of-min_mask_for (suc zero) h = refl
min_mask_of-min_mask_for (suc (suc zero)) h = refl
min_mask_of-min_mask_for (suc (suc (suc n))) h = absurd (omega (arith, h))

word-low_bit : (esc : ℕ) → esc ≤ 1 → word 64 esc ≡ low_bit (ltb 0 esc) 64
word-low_bit zero h = refl
word-low_bit (suc zero) h = refl
word-low_bit (suc (suc n)) h = absurd (omega (arith, h))

mask_across-at_nl_dot :
    (q : Bytes)
    → 4 ≤ length q
    → mask_across q ≡ (if at_nl_dot q then 1 else if at_nl_dot (drop 1 q) then 2 else 0)
mask_across-at_nl_dot [] h = absurd (omega (arith, h))
mask_across-at_nl_dot (a ∷ []) h = absurd (omega (arith, h))
mask_across-at_nl_dot (a ∷ b ∷ []) h = absurd (omega (arith, h))
mask_across-at_nl_dot (a ∷ b ∷ c ∷ []) h = absurd (omega (arith, h))
mask_across-at_nl_dot (a ∷ b ∷ c ∷ d ∷ r) h = refl

after-mask_across :
    (s : Seen) (p : Bytes) → 66 ≤ length p → mask_for (after 64 s p) ≡ mask_across (drop 62 p)
after-mask_across s p h =
    let there : skip 63 p ≡ drop 1 (drop 62 p) = skip-drop 63 p ∙ drop-add 62 1 p in
    ap (λ w. if at_nl_dot w then 1 else if at_nl_dot (skip 63 p) then 2 else 0) (skip-drop 62 p)
    ∙ ap (λ w. if at_nl_dot (drop 62 p) then 1 else if at_nl_dot w then 2 else 0) there
    ∙ sym (mask_across-at_nl_dot (drop 62 p) (omega (arith, h, length-drop 62 p)))

none_left : (fuel : ℕ) (s : Seen) (p : Bytes) → leb 68 (length p) ≡ false → blocks_seen fuel s p ≡ s
none_left zero s p h = refl
none_left (suc fuel) s p h =
    ap (λ b. if b then blocks_seen fuel (after 64 s p) (drop 64 p) else s) h

-- The mask behind the last block is that of the bytes around its end.
blocks_seen-mask_across :
    (fuel : ℕ) (s : Seen) (p : Bytes)
    → length p ≤ fuel
    → leb 68 (length p) ≡ true
    → mask_for (blocks_seen fuel s p) ≡ mask_across (drop (64 * ((length p - 4) / 64) - 2) p)
blocks_seen-mask_across zero s p enough more =
    absurd (let long = leb→le 68 (length p) more in omega (arith, enough, long))
blocks_seen-mask_across (suc fuel) s p enough more =
    let q = drop 64 p in
    let long = leb→le 68 (length p) more in
    let m = length-drop 64 p in
    ap (λ b. mask_for (if b then blocks_seen fuel (after 64 s p) q else s)) more
    ∙ elim (Bool-cases (leb 68 (length q))) [
      | inr last ↦
          let short = leb-lt 68 (length q) last in
          let e : 62 ≡ 64 * ((length p - 4) / 64) - 2 = omega (arith, long, short, m) in
          ap mask_for (none_left fuel (after 64 s p) q last)
          ∙ after-mask_across s p (omega (arith, long))
          ∙ ap (λ k. mask_across (drop k p)) e
      | inl further ↦
          let big = leb→le 68 (length q) further in
          let e : 64 + (64 * ((length q - 4) / 64) - 2) ≡ 64 * ((length p - 4) / 64) - 2 =
            omega (arith, big, m) in
          blocks_seen-mask_across fuel (after 64 s p) q (omega (arith, enough, long, m)) further
          ∙ ap mask_across (sym (drop-add 64 (64 * ((length q - 4) / 64) - 2) p))
          ∙ ap (λ k. mask_across (drop k p)) e
    ]

straddling-mask_for :
    (s : Seen) (src : Bytes) (mask : ℕ)
    → leb 68 (length src) ≡ true
    → straddling src mask ≡ mask_for (blocks_seen (length src) s src)
unfolding straddling
straddling-mask_for s src mask more =
    ap (λ b. if b then mask_across (drop (64 * ((length src - 4) / 64) - 2) src) else mask) more
    ∙ sym (blocks_seen-mask_across (length src) s src (omega arith) more)

abbrev returned : Progress → Vectors
returned l = record {
  consumed = l.consumed;
  written = take l.produced l.dest;
  esc_first = value l.esc_first;
  next_mask = l.next_mask;
}

module _ (src : Bytes) (esc mask : ℕ) (long : 67 < length src) (e1 : esc ≤ 1) (m2 : mask ≤ 2) where
  -- The variables before the loop.
  before : Progress
  before = record {
    consumed = 0;
    produced = 0;
    dest = replicate (length src) 0;
    esc_first = word 64 esc;
    yenc_offset = yenc_offset_of (ltb 0 esc);
    min_mask = min_mask_of mask;
    next_mask = straddling src mask;
  }

  before-Holds : Holds (seen_of esc mask) [] (length src) before
  unfolding before
  before-Holds = record {
    mins = min_mask_of-min_mask_for mask m2;
    escs = word-low_bit esc e1;
    offs = refl;
    size = length-replicate {A = ℕ} (length src) 0;
    done = refl;
  }

  finishes :
      starts esc mask src ≡ true
      → (m : Progress) × (blocks (length src) src before ≡ ret m)
        × Finished (seen_of esc mask) src [] before m
  unfolding before
  finishes sound =
      let long_enough : leb 68 (length src) ≡ true = ground arith in
      blocks-Finished (length src) (length src) (seen_of esc mask) src [] before (omega arith)
        (omega (arith, long)) (omega arith) before-Holds
        (starts-is_sound esc mask src (omega (arith, long)) sound)
        (straddling-mask_for (seen_of esc mask) src mask long_enough)

  Finished-IsVectors :
      (m : Progress)
      → Finished (seen_of esc mask) src [] before m
      → IsVectors (kernel_state esc mask) src (returned m)
  unfolding before kernel_state
  Finished-IsVectors m f = record {
    leaves = omega (arith, f.leaves, f.counts);
    part = record {
      inside = omega (arith, f.leaves, f.counts);
      fits = omega (arith, f.fits, f.counts, ap length f.done);
      reads = λ more.
          let rest = read [] (kernel_state (value m.esc_first) m.next_mask) in
          let all : m.consumed ≡ f.taken = omega (arith, f.counts) in
          ap (λ o. behind o (rest (drop m.consumed src ++ more))) f.done
          ∙ ap (λ k. behind f.found (rest (drop k src ++ more))) all
          ∙ f.reads more;
    };
  }

-- `decodeSIMDAVX2`, on at least 68 bytes, with room in `dest` and with an escape or a mask that is true
-- of the first bytes, returns: it leaves at least four bytes, and what it wrote, with the escape and
-- mask that it returns, is what the automaton gives on the bytes that it took.
pub decode_simd_avx2-IsVectors :
    (dest_len : ℕ) (src : Bytes) (esc mask : ℕ)
    → 67 < length src
    → length src ≤ dest_len
    → esc ≤ 1
    → mask ≤ 2
    → starts esc mask src ≡ true
    → (k : Vectors) × (decode_simd_avx2 dest_len src esc mask ≡ ret k)
      × IsVectors (kernel_state esc mask) src k
unfolding decode_simd_avx2 before
decode_simd_avx2-IsVectors dest_len src esc mask long room e1 m2 sound =
    let (m, e, f) = finishes src esc mask long e1 m2 sound in
    let run : Outcome Progress → Outcome Vectors = λ r. r >>= λ l. ret (returned l) in
    (
      returned m,
      ap (λ b. if b then panic else run (blocks (length src) src (before src esc mask long e1 m2)))
            (le-ltb dest_len (length src) room)
          ∙ ap run e,
      Finished-IsVectors src esc mask long e1 m2 m f,
    )

-- `decodeAVX2` returns for every place of `src` in memory, every state and with room in `dest` for as
-- many bytes as `src` holds, and refines the automaton as `decodeGeneric` does.
pub decode_avx2-Decodes :
    (address dest_len : ℕ) (src : Bytes) (s : State)
    → address < 64
    → length src ≤ dest_len
    → Decodes s src (decode_avx2 address dest_len src s)
unfolding decode_avx2
decode_avx2-Decodes address dest_len src s below room =
    decode_simd-Decodes 64 decode_simd_avx2 decode_simd_avx2-IsVectors (omega arith) address
      dest_len src s below room
