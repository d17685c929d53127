-- ===== src/Crc/Streams.antt =====
-- `crcUpdate` of crc32_multistream_arm64.go against `crc32.Update`, and checksums in pieces.
use Prim.Native.Nat.{bit_xor}
use rapidyenc.Base.{
  ℕ, zero, suc, ◌*◌, ◌/◌, ◌%◌, ◌^◌, ◌<◌, ◌≤◌, ◌≡◌, refl, sym, ap, ◌∙◌, arith, Bytes, All, IsByte,
  length, take, drop, replicate, Bool, false, not, ◌||◌, Bool-cases, inl, inr, leb, ltb, leb→le,
  ret, length-take, length-drop, take-append-drop, All-append_inv, take-all,
}
use rapidyenc.Base.Bits.{bit_xor-zero}
use rapidyenc.Go.Crc32.{raw_update, invert, update, raw_update-append}
use rapidyenc.Crc.{
  crc_quarter_big, crc_quarter_sml, crc_min_chunk, crc_mul, shift_zeros, Quad, combine, chunks,
  crc_update_streams,
}
use rapidyenc.Crc.Linear.{invert-lt, invert-invert, raw_update-bit_xor, raw_update-lt}
use rapidyenc.Crc.Product.{crc_mul-shift_zeros}

abbrev u32_mod : ℕ
u32_mod = 2 ^ 32

-- Four registers, each moved over `q` bytes.
abbrev pub quarters_at : ℕ → Quad → Bytes → Quad
quarters_at q c p = record {
  c0 = raw_update c.c0 (take q p);
  c1 = raw_update c.c1 (take q (drop q p));
  c2 = raw_update c.c2 (take q (drop q (drop q p)));
  c3 = raw_update c.c3 (take q (drop q (drop q (drop q p))));
}

-- What the assembly routine computes: each register moves over its quarter.
abbrev pub quarters : Quad → Bytes → Quad
quarters c p = quarters_at (length p / 4) c p

-- Feeding bytes into a register, with the register's share by a product.
raw_update-crc_mul :
    (x q : ℕ) (b : Bytes)
    → x < u32_mod
    → length b ≡ q
    → bit_xor (crc_mul x (shift_zeros 0x80000000 q)) (raw_update 0 b) ≡ raw_update x b
unfolding shift_zeros
raw_update-crc_mul x q b h l =
    ap (λ y. bit_xor y (raw_update 0 b))
      (crc_mul-shift_zeros x q h ∙ ap (λ n. raw_update x (replicate n 0)) (sym l))
    ∙ sym (raw_update-bit_xor b x 0)
    ∙ ap (λ y. raw_update y b) (bit_xor-zero x)

parts : (m : ℕ) (s : Bytes) → All IsByte s → All IsByte (take m s) × All IsByte (drop m s)
parts m s h = All-append_inv IsByte (take m s) (drop m s) (rw (take-append-drop m s) h)

raw_update-split :
    (m crc : ℕ) (s : Bytes) → raw_update (raw_update crc (take m s)) (drop m s) ≡ raw_update crc s
raw_update-split m crc s =
    sym (raw_update-append (take m s) (drop m s) crc) ∙ ap (raw_update crc) (take-append-drop m s)

combine-quarters :
    (raw q : ℕ) (p : Bytes)
    → raw < u32_mod
    → All IsByte p
    → length p ≡ 4 * q
    → combine (shift_zeros 0x80000000 q) (quarters (record { c0 = raw; c1 = 0; c2 = 0; c3 = 0 }) p)
      ≡ raw_update raw p
unfolding combine
combine-quarters raw q p h bytes l =
    let p1 = drop q p in
    let p2 = drop q p1 in
    let p3 = drop q p2 in
    let l1 = length-drop q p in
    let l2 = length-drop q p1 in
    let l3 = length-drop q p2 in
    let k = shift_zeros 0x80000000 q in
    let (b0, r1) = parts q p bytes in
    let (b1, r2) = parts q p1 r1 in
    let (b2, r3) = parts q p2 r2 in
    let a0 = raw_update raw (take q p) in
    let a1 = raw_update a0 (take q p1) in
    let a2 = raw_update a1 (take q p2) in
    let x0 = raw_update-lt (take q p) raw h b0 in
    let x1 = raw_update-lt (take q p1) a0 x0 b1 in
    let x2 = raw_update-lt (take q p2) a1 x1 b2 in
    let e1 = raw_update-crc_mul a0 q (take q p1) x0 (omega (arith, length-take q p1, l, l1)) in
    let e2 = raw_update-crc_mul a1 q (take q p2) x1 (omega (arith, length-take q p2, l, l1, l2)) in
    let e3 =
      raw_update-crc_mul a2 q (take q p3) x2 (omega (arith, length-take q p3, l, l1, l2, l3)) in
    let last : take q p3 ≡ p3 = take-all q p3 (omega (arith, l, l1, l2, l3)) in
    ap (λ n. combine k (quarters_at n (record { c0 = raw; c1 = 0; c2 = 0; c3 = 0 }) p))
      (let n : length p / 4 ≡ q = omega (arith, l) in n)
    ∙ ap
        (λ y.
          bit_xor (crc_mul (bit_xor (crc_mul y k) (raw_update 0 (take q p2))) k)
            (raw_update 0 (take q p3)))
        e1
    ∙ ap (λ y. bit_xor (crc_mul y k) (raw_update 0 (take q p3))) e2
    ∙ e3
    ∙ ap (raw_update a2) last
    ∙ raw_update-split q a1 p2
    ∙ raw_update-split q a0 p1
    ∙ raw_update-split q raw p

-- What the loop over chunks leaves: the same checksum to come, from a register of 32 bits.
record Continues (raw : ℕ) (p : Bytes) (r : ℕ × Bytes) : Type 0 where
  register : r.0 < u32_mod
  bytes : All IsByte r.1
  same : raw_update r.0 r.1 ≡ raw_update raw p

module _ (quad : Quad → Bytes → Quad)
    (advances : (c : Quad) (p : Bytes) → length p % 64 ≡ 0 → quad c p ≡ quarters c p) where
  chunks-Continues :
      (fuel q raw : ℕ) (p : Bytes)
      → 1 ≤ q
      → 4 * q % 64 ≡ 0
      → length p ≤ fuel
      → raw < u32_mod
      → All IsByte p
      → (r : ℕ × Bytes) × (chunks quad fuel q (shift_zeros 0x80000000 q) raw p ≡ ret r)
        × Continues raw p r
  unfolding chunks
  chunks-Continues zero q raw p h m f lt b =
      let e : leb (4 * q) (length p) ≡ false = ground arith in
      ((raw, p), rw e refl, record { register = lt; bytes = b; same = refl })
  chunks-Continues (suc fuel) q raw p h m f lt b = elim (Bool-cases (leb (4 * q) (length p))) [
    | inr short ↦ ((raw, p), rw short refl, record { register = lt; bytes = b; same = refl })
    | inl more ↦
        let n = 4 * q in
        let l : length (take n p) ≡ 4 * q = omega (arith, length-take n p, leb→le _ _ more) in
        let (front, back) = parts n p b in
        let start : Quad = record { c0 = raw; c1 = 0; c2 = 0; c3 = 0 } in
        let c : combine (shift_zeros 0x80000000 q) (quad start (take n p))
            ≡ raw_update raw (take n p) =
          ap (combine (shift_zeros 0x80000000 q)) (advances start (take n p) (omega (arith, l, m)))
          ∙ combine-quarters raw q (take n p) lt front l in
        let (r, e, w) =
          chunks-Continues fuel q (raw_update raw (take n p)) (drop n p) h m
            (omega (arith, length-drop n p, f, h, leb→le _ _ more))
            (raw_update-lt (take n p) raw lt front) back in
        (
          r,
          rw (more, c) e,
          record {
            register = w.register;
            bytes = w.bytes;
            same = w.same ∙ raw_update-split n raw p;
          },
        )
  ]

  -- Where the assembly routine moves each of four registers over its quarter of a slice whose length is
  -- a multiple of 64, `crcUpdate` ends and is `crc32.Update`, with several streams or without, for
  -- every register of 32 bits and every slice.
  pub crc_update_streams-update :
      (crc_multi_stream : Bool) (crc : ℕ) (p : Bytes)
      → All IsByte p
      → crc_update_streams quad crc_multi_stream crc p ≡ ret (update crc p)
  unfolding crc_update_streams update
  crc_update_streams-update multi crc p b =
      elim (Bool-cases (not multi || ltb (length p) crc_min_chunk)) [
        | inl plain ↦ rw plain refl
        | inr streams ↦
            let (big, e, w) =
              chunks-Continues (length p) crc_quarter_big (invert crc) p (omega arith) refl
                (omega arith) (invert-lt crc) b in
            let (small, e', w') =
              chunks-Continues (length big.1) crc_quarter_sml big.0 big.1 (omega arith) refl
                (omega arith) w.register w.bytes in
            rw (streams, e, e', invert-invert small.0 w'.register, w'.same, w.same) refl
      ]
