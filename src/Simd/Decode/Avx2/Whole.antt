-- ===== src/Simd/Decode/Avx2/Whole.antt =====
-- The loop as a whole: it takes blocks up to an end or to the last bytes, and decodes what it takes.
use rapidyenc.Base.{
  ℕ, zero, suc, ◌+◌, ◌≤◌, ◌≡◌, refl, sym, ap, ◌∙◌, arith, Bool, true, false, [], ◌∷◌, ◌++◌,
  append-nil, append_assoc, Bytes, length, length-append, length-drop, take, drop, drop-add, leb,
  leb→le, if◌then◌else◌, Bool-cases, inl, inr, Outcome, ret,
}
use rapidyenc.Decoder.{State, crlf, eq, cr}
use rapidyenc.Decoder.Automaton.{Result, read}
use rapidyenc.Decoder.Progress.{behind}
use rapidyenc.Go.Word64.{value}
use rapidyenc.Go.Archsimd.{lane}
use rapidyenc.Simd.Decode.{kernel_state}
use rapidyenc.Simd.Decode.Avx2.Loop.{Progress, block, after_block, blocks}
use rapidyenc.Simd.Decode.Avx2.Chains.{low_bit}
use rapidyenc.Simd.Decode.Avx2.Each.{any_of}
use rapidyenc.Simd.Decode.Avx2.Lanes.{
  at_end, Seen, seen_state, is_sound, is_gone, lane_out, next_seen,
}
use rapidyenc.Simd.Decode.Avx2.Runs.{run_out, after, run_lem}
use rapidyenc.Simd.Decode.Avx2.Blocks.{Holds, GoesOn}
use rapidyenc.Simd.Decode.Avx2.Rounds.{mask_for, block-go_on, block-break_off}

-- What is known behind all blocks, if no end is found.
abbrev pub blocks_seen : ℕ → Seen → Bytes → Seen
blocks_seen zero s p = s
blocks_seen (suc fuel) s p =
    let next = blocks_seen fuel (after 64 s p) (drop 64 p) in if leb 68 (length p) then next else s

-- What the loop makes of the bytes `p`, from the variables `l` to `m`.
pub record Finished (s : Seen) (p out : Bytes) (l m : Progress) : Type 0 where
  pub taken : ℕ
  pub found : Bytes
  pub counts : m.consumed ≡ l.consumed + taken
  pub leaves : taken + 4 ≤ length p
  pub done : take m.produced m.dest ≡ out ++ found
  pub fits : length found ≤ taken
  pub reads :
      (more : Bytes)
      → behind found (read [] (kernel_state (value m.esc_first) m.next_mask) (drop taken p ++ more))
        ≡ read [] (seen_state s) (p ++ more)

kernel_state-seen_state :
    (s : Seen) → kernel_state (value (low_bit s.esc 64)) (mask_for s) ≡ seen_state s
unfolding kernel_state
kernel_state-seen_state s = by_seen s.esc s.dot s.later
  where
    by_seen :
        (x y z : Bool)
        → kernel_state (value (low_bit x 64)) (if y then 1 else if z then 2 else 0)
          ≡ (if x then eq else if y then crlf else if z then cr else State.none)
    by_seen true y z = refl
    by_seen false true z = refl
    by_seen false false true = refl
    by_seen false false false = refl

length-lane_out : (s : Seen) (c : ℕ) → length (lane_out s c) ≤ 1
length-lane_out s c = by_gone (is_gone s c) _
  where
    by_gone : (b : Bool) (k : ℕ) → length (if b then [] else k ∷ []) ≤ 1
    by_gone true k = omega arith
    by_gone false k = omega arith

length-run_out : (n : ℕ) (s : Seen) (w : Bytes) → length (run_out n s w) ≤ n
length-run_out zero s w = omega arith
length-run_out (suc n) s w =
    let here = length-lane_out s (lane 0 w) in
    let there = length-run_out n (next_seen s w) (drop 1 w) in
    let both = length-append (lane_out s (lane 0 w)) (run_out n (next_seen s w) (drop 1 w)) in
    omega (arith, here, there, both)

behind-behind : (o u : Bytes) (q : Result) → behind (o ++ u) q ≡ behind o (behind u q)
behind-behind o u q = ap (λ x. record q { out = x }) (append_assoc o u q.out)

module _ (n : ℕ) where
  -- The loop stops here.
  stops :
      (s : Seen) (p out : Bytes) (l m : Progress)
      → 4 ≤ length p
      → Holds s out n m
      → m.consumed ≡ l.consumed
      → m.next_mask ≡ mask_for s
      → Finished s p out l m
  stops s p out l m long holds same mask = record {
    taken = 0;
    found = [];
    counts = omega (arith, same);
    leaves = omega (arith, long);
    done = holds.done ∙ sym (append-nil out);
    fits = omega arith;
    reads = λ more.
        ap (λ t. read [] t (p ++ more))
          (ap (λ e. kernel_state (value e) m.next_mask) holds.escs
            ∙ ap (kernel_state (value (low_bit s.esc 64))) mask
            ∙ kernel_state-seen_state s);
  }

  goes_further :
      (s : Seen) (p out : Bytes) (l m k : Progress)
      → 68 ≤ length p
      → is_sound s p ≡ true
      → any_of 64 at_end p ≡ false
      → GoesOn p s out n l m
      → Finished (after 64 s p) (drop 64 p) (out ++ run_out 64 s p) m k
      → Finished s p out l k
  goes_further s p out l m k long sound none goes f = record {
    taken = 64 + f.taken;
    found = run_out 64 s p ++ f.found;
    counts = omega (arith, goes.takes, f.counts);
    leaves = omega (arith, f.leaves, length-drop 64 p, long);
    done = f.done ∙ append_assoc out (run_out 64 s p) f.found;
    fits = omega (arith, f.fits, length-append (run_out 64 s p) f.found, length-run_out 64 s p);
    reads = λ more.
        let rest = read [] (kernel_state (value k.esc_first) k.next_mask) in
        ap (λ w. behind (run_out 64 s p ++ f.found) (rest (w ++ more))) (drop-add 64 f.taken p)
        ∙ behind-behind (run_out 64 s p) f.found (rest (drop f.taken (drop 64 p) ++ more))
        ∙ ap (behind (run_out 64 s p)) (f.reads more)
        ∙ sym ((run_lem 64 s p (omega (arith, long)) sound none).0 more);
  }

  stops_at_end :
      (s : Seen) (p out : Bytes) (l : Progress)
      → 4 ≤ length p
      → Holds s out n l
      → Finished s p out l (record l { next_mask = mask_for s })
  stops_at_end s p out l long holds =
      stops s p out l (record l { next_mask = mask_for s }) long
        (record {
          mins = holds.mins;
          escs = holds.escs;
          offs = holds.offs;
          size = holds.size;
          done = holds.done;
        })
        refl refl

  -- On fuel for each byte, the loop comes to its end, and what it took is decoded.
  pub blocks-Finished :
      (fuel : ℕ) (s : Seen) (p out : Bytes) (l : Progress)
      → length p ≤ fuel
      → 4 ≤ length p
      → l.produced + length p ≤ n
      → Holds s out n l
      → is_sound s p ≡ true
      → l.next_mask ≡ mask_for (blocks_seen fuel s p)
      → (m : Progress) × (blocks fuel p l ≡ ret m) × Finished s p out l m
  unfolding blocks after_block
  blocks-Finished zero s p out l enough big room holds sound mask =
      absurd (omega (arith, enough, big))
  blocks-Finished (suc fuel) s p out l enough big room holds sound mask =
      let decide : Bool → Outcome Progress =
        λ b. if b then after_block (blocks fuel) p (block p l) else ret l in
      let seen : Bool → Seen = λ b. if b then blocks_seen fuel (after 64 s p) (drop 64 p) else s in
      elim (Bool-cases (leb 68 (length p))) [
        | inr short ↦ (
          l,
          ap decide short,
          stops s p out l l big holds refl (mask ∙ ap (λ b. mask_for (seen b)) short),
        )
        | inl more ↦
            let long = leb→le 68 (length p) more in
            elim (Bool-cases (any_of 64 at_end p)) [
              | inl ended ↦ (
                _,
                ap decide more
                    ∙ ap (after_block (blocks fuel) p) (
                        block-break_off p s out n l holds sound long (omega (arith, room, long))
                          ended),
                stops_at_end s p out l big holds,
              )
              | inr no_end ↦
                  let (m, e, goes) =
                    block-go_on p s out n l holds sound long (omega (arith, room, long)) no_end in
                  let (k, f, finished) =
                    blocks-Finished fuel (after 64 s p) (drop 64 p) (out ++ run_out 64 s p) m
                      (omega (arith, enough, long, length-drop 64 p))
                      (omega (arith, long, length-drop 64 p))
                      (omega (arith, room, long, goes.gives, length-drop 64 p)) goes.holds
                      (run_lem 64 s p (omega (arith, long)) sound no_end).1
                      (goes.keeps ∙ mask ∙ ap (λ b. mask_for (seen b)) more) in
                  (
                    k,
                    ap decide more ∙ ap (after_block (blocks fuel) p) e ∙ f,
                    goes_further s p out l m k long sound no_end goes finished,
                  )
            ]
      ]
