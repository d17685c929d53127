-- ===== src/Simd/Decode/Avx2/Blocks.antt =====
-- What a round of the loop does: it takes a block and decodes it, or breaks off at an end.
use rapidyenc.Base.{
  ℕ, zero, suc, ◌+◌, ◌-◌, ◌≤◌, ◌≡◌, refl, sym, ap, ◌∙◌, arith, Bool, true, false, not, [], ◌∷◌,
  ◌++◌, Bytes, length, length-take, length-drop, take, drop, ◌==◌, if◌then◌else◌, none, some,
}
use rapidyenc.Go.Word64.{Word, is_zero, w_or, ones_count}
use rapidyenc.Go.Archsimd.{lane, load32, add, broadcast}
use rapidyenc.Simd.Decode.Avx2.Tables.{yenc_offset_of}
use rapidyenc.Simd.Decode.Avx2.LineEnds.{specials, find_lines}
use rapidyenc.Simd.Decode.Avx2.Escapes.{Unescaped, unescape_block}
use rapidyenc.Simd.Decode.Avx2.Loop.{
  Progress, Block, go_on, plain_block, unescaped_block, special_block, block, store_block,
}
use rapidyenc.Simd.Decode.Avx2.Each.{each, any_of, skip}
use rapidyenc.Simd.Decode.Avx2.Chains.{escapes, low_bit}
use rapidyenc.Simd.Decode.Avx2.Lanes.{at_nl_dot, at_end, Seen, is_sound}
use rapidyenc.Simd.Decode.Avx2.Marks.{dots, with_dots, min_mask_for}
use rapidyenc.Simd.Decode.Avx2.Search.{marks, specials-marks}
use rapidyenc.Simd.Decode.Avx2.Lines.{at_eq, mask_eq-each, find_lines-with_dots}
use rapidyenc.Simd.Decode.Avx2.Unescape.{covers, unescaped_by, unescape_block-unescaped_by}
use rapidyenc.Simd.Decode.Avx2.Compact.{keep}
use rapidyenc.Simd.Decode.Avx2.Stores.{store_block-keep}
use rapidyenc.Simd.Decode.Avx2.Runs.{run_out, after}
use rapidyenc.Simd.Decode.Avx2.Kept.{keep-run_out, dot_flags, special_flags, marks-flags}

-- What the variables of the loop are, with what is known in front of the next byte, the bytes that
-- were decoded and the size of `dest`.
pub record Holds (s : Seen) (out : Bytes) (n : ℕ) (l : Progress) : Type 0 where
  pub mins : l.min_mask ≡ min_mask_for s.dot s.later
  pub escs : l.esc_first ≡ low_bit s.esc 64
  pub offs : l.yenc_offset ≡ yenc_offset_of s.esc
  pub size : length l.dest ≡ n
  pub done : take l.produced l.dest ≡ out

-- A round that goes on.
pub record GoesOn (p : Bytes) (s : Seen) (out : Bytes) (n : ℕ) (l m : Progress) : Type 0 where
  pub holds : Holds (after 64 s p) (out ++ run_out 64 s p) n m
  pub takes : m.consumed ≡ l.consumed + 64
  pub gives : m.produced ≤ l.produced + 64
  pub keeps : m.next_mask ≡ l.next_mask

sound-dot : (s : Seen) (p : Bytes) → is_sound s p ≡ true → s.dot ≡ true → (lane 0 p == b'.') ≡ true
sound-dot s p h e = ground arith

lane-drop_1 : (p : Bytes) → lane 1 p ≡ lane 0 (drop 1 p)
lane-drop_1 [] = refl
lane-drop_1 (a ∷ []) = refl
lane-drop_1 (a ∷ b ∷ p) = refl

sound-later :
    (s : Seen) (p : Bytes)
    → is_sound s p ≡ true
    → s.later ≡ true
    → (lane 0 (drop 1 p) == b'.') ≡ true
sound-later s p h e = rw (sym (lane-drop_1 p)) (ground arith)

covers-flags :
    (n : ℕ) (d0 d1 : Bool) (w : Bytes)
    → covers (w_or (special_flags n w) (dot_flags n d0 d1 w)) (each n at_eq w) ≡ true
covers-flags zero d0 d1 w = refl
covers-flags (suc n) d0 d1 w = rw (covers-flags n d1 (at_nl_dot w) (drop 1 w)) (ground arith)

has_low_bit : (b : Bool) → not (is_zero (low_bit b 64)) ≡ b
has_low_bit true = refl
has_low_bit false = refl

length-add : (x o : Bytes) → length x ≡ length o → length (add x o) ≡ length x
length-add [] o h = refl
length-add (a ∷ x) [] h = absurd (omega (arith, h))
length-add (a ∷ x) (b ∷ o) h = ap suc (length-add x o (omega (arith, h)))

pub length-half : (p o : Bytes) → 32 ≤ length p → length o ≡ 32 → length (add (load32 p) o) ≡ 32
length-half p o h w =
    let n : length (load32 p) ≡ 32 = omega (arith, h, length-take 32 p) in
    length-add (load32 p) o (n ∙ sym w) ∙ n

-- The variables behind a block that is unescaped.
abbrev behind_block : Progress → Bytes → Unescaped → Progress
behind_block l mins u = record l {
  consumed = l.consumed + 64;
  produced = l.produced + (64 - ones_count u.mask);
  dest = store_block l.produced u l.dest;
  esc_first = u.esc_first;
  yenc_offset = yenc_offset_of (not (is_zero u.esc_first));
  min_mask = mins;
}

module _ (p : Bytes) (s : Seen) (out : Bytes) (n : ℕ) (l : Progress) (holds : Holds s out n l)
    (sound : is_sound s p ≡ true) (long : 68 ≤ length p) (room : l.produced + 64 ≤ n) where
  pub block-marks : block p l ≡ (
      if is_zero (marks s.dot s.later p)
      then plain_block p l
      else special_block p l (marks s.dot s.later p))
  unfolding block
  block-marks =
      let choice : Word → Block = λ m. if is_zero m then plain_block p l else special_block p l m in
      ap (λ m. choice (specials (load32 p) m ++ specials (load32 (drop 32 p)) (broadcast b'.')))
        holds.mins
      ∙ ap choice (
          specials-marks s.dot s.later p (omega (arith, long)) (sound-dot s p sound)
            (sound-later s p sound))

  pub special_block-lem :
      special_block p l (marks s.dot s.later p)
      ≡ unescaped_block p l
          (marks s.dot s.later p)
          (if any_of 64 at_end p then none else some (with_dots (marks s.dot s.later p) p))
          (each 64 at_eq p)
  unfolding special_block
  special_block-lem =
      let m = marks s.dot s.later p in
      ap (λ e. unescaped_block p l m (find_lines p m e l.min_mask) e)
        (mask_eq-each p (omega (arith, long)))
      ∙ ap (λ i. unescaped_block p l m (find_lines p m (each 64 at_eq p) i) (each 64 at_eq p))
          holds.mins
      ∙ ap (λ f. unescaped_block p l m f (each 64 at_eq p))
          (find_lines-with_dots s.dot s.later p long (sound-dot s p sound) (sound-later s p sound))

  found_mask : Word
  found_mask = w_or (marks s.dot s.later p) (dots p)

  pub found_mins : Bytes
  found_mins = min_mask_for (at_nl_dot (skip 62 p)) (at_nl_dot (skip 63 p))

  pub block_bytes : Unescaped
  block_bytes =
      unescaped_by s.esc (escapes s.esc (each 64 at_eq p)) p (w_or (marks s.dot s.later p) (dots p))

  unescape_block-lem :
      unescape_block p found_mask (each 64 at_eq p) l.esc_first l.yenc_offset ≡ block_bytes
  unfolding found_mask block_bytes
  unescape_block-lem =
      ap (λ e. unescape_block p found_mask (each 64 at_eq p) e l.yenc_offset) holds.escs
      ∙ ap (λ o. unescape_block p found_mask (each 64 at_eq p) (low_bit s.esc 64) o) holds.offs
      ∙ unescape_block-unescaped_by s.esc p found_mask (omega (arith, long)) refl (
          ap (λ m. covers m (each 64 at_eq p)) (marks-flags s.dot s.later p)
          ∙ covers-flags 64 s.dot s.later p)

  pub behind_block-GoesOn : GoesOn p s out n l (behind_block l found_mins block_bytes)
  unfolding found_mins block_bytes
  behind_block-GoesOn =
      let u = block_bytes in
      let halves : Word → Bytes → Bytes → Bytes = λ m a b. keep m (a ++ b) in
      let (size, done) =
        store_block-keep u.mask u.lo u.hi refl (length-half p _ (omega (arith, long)) refl)
          (length-half (drop 32 p) _ (omega (arith, long, length-drop 32 p)) refl) l.produced
          u.esc_first l.dest (omega (arith, room, holds.size)) in
      record {
        holds = record {
          mins = refl;
          escs = refl;
          offs = ap yenc_offset_of (has_low_bit _);
          size = size ∙ holds.size;
          done =
              done
              ∙ ap (λ o. o ++ keep u.mask (u.lo ++ u.hi)) holds.done
              ∙ ap (λ k. out ++ k) (keep-run_out s p (omega (arith, long)));
        };
        takes = refl;
        gives = omega arith;
        keeps = refl;
      }

  pub special_block-go_on :
      any_of 64 at_end p ≡ false
      → special_block p l (marks s.dot s.later p) ≡ go_on (behind_block l found_mins block_bytes)
  unfolding unescaped_block found_mins found_mask
  special_block-go_on e =
      special_block-lem
      ∙ ap
          (λ b.
            unescaped_block p l (marks s.dot s.later p)
              (if b then none else some (with_dots (marks s.dot s.later p) p)) (each 64 at_eq p))
          e
      ∙ ap (λ u. go_on (behind_block l found_mins u)) unescape_block-lem
