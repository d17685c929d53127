-- ===== src/Simd/Decode/Avx2/Runs.antt =====
-- Lane after lane: what a run of them decodes, and that the automaton reads the same.
use rapidyenc.Base.{
  ℕ, zero, suc, ◌+◌, ◌≤◌, ◌≡◌, refl, sym, ap, ◌∙◌, arith, Bool, true, false, ◌||◌, [], ◌∷◌, ◌++◌,
  Bytes, length, drop, append_assoc,
}
use rapidyenc.Decoder.Automaton.{Result, read}
use rapidyenc.Decoder.Progress.{behind}
use rapidyenc.Go.Archsimd.{lane}
use rapidyenc.Simd.Decode.Avx2.Each.{any_of}
use rapidyenc.Simd.Decode.Avx2.Lanes.{
  at_end, Seen, seen_state, lane_out, next_seen, is_sound, lane_sound,
}
use rapidyenc.Simd.Decode.Avx2.Reads.{lane_read_seen}

-- What `n` bytes decode to, and what is known behind them.
abbrev pub run_out : ℕ → Seen → Bytes → Bytes
run_out zero s w = []
run_out (suc n) s w = lane_out s (lane 0 w) ++ run_out n (next_seen s w) (drop 1 w)

abbrev pub after : ℕ → Seen → Bytes → Seen
after zero s w = s
after (suc n) s w = after n (next_seen s w) (drop 1 w)

-- A run without an end decodes what the automaton does, and stops in its state.
abbrev pub Runs : ℕ → Seen → Bytes → Type 0
Runs n s w =
    ((more : Bytes)
      → read [] (seen_state s) (w ++ more)
        ≡ behind (run_out n s w) (read [] (seen_state (after n s w)) (drop n w ++ more)))
    × (is_sound (after n s w) (drop n w) ≡ true)

pub run_lem :
    (n : ℕ) (s : Seen) (w : Bytes)
    → n + 4 ≤ length w
    → is_sound s w ≡ true
    → any_of n at_end w ≡ false
    → Runs n s w
run_lem zero s w h sound e = (λ more. refl, sound)
run_lem (suc n) s [] h sound e = absurd (omega (arith, h))
run_lem (suc n) s (a ∷ []) h sound e = absurd (omega (arith, h))
run_lem (suc n) s (a ∷ b ∷ []) h sound e = absurd (omega (arith, h))
run_lem (suc n) s (a ∷ b ∷ c ∷ []) h sound e = absurd (omega (arith, h))
run_lem (suc n) s (a ∷ b ∷ c ∷ d ∷ []) h sound e = absurd (omega (arith, h))
run_lem (suc n) s (a ∷ b ∷ c ∷ d ∷ f ∷ r) h sound e =
    let w = a ∷ b ∷ c ∷ d ∷ f ∷ r in
    let here : at_end w ≡ false = neither (at_end w) (any_of n at_end (drop 1 w)) e in
    let there : any_of n at_end (drop 1 w) ≡ false =
      nor (at_end w) (any_of n at_end (drop 1 w)) e in
    let (reads, still) =
      run_lem n (next_seen s w) (drop 1 w) (omega (arith, h))
        (lane_sound a b c d f r [] s.esc s.dot s.later sound here) there in
    (
      λ more.
          lane_read_seen a b c d f r more s.esc s.dot s.later sound here
          ∙ ap (behind (lane_out s a)) (reads more)
          ∙ behind-behind (lane_out s a) (run_out n (next_seen s w) (drop 1 w)) _,
      still,
    )
  where
    neither : (x y : Bool) → (x || y) ≡ false → x ≡ false
    neither true y h = h
    neither false y h = refl

    nor : (x y : Bool) → (x || y) ≡ false → y ≡ false
    nor true y h = absurd (ground (arith, h))
    nor false y h = h

    behind-behind : (o u : Bytes) (q : Result) → behind o (behind u q) ≡ behind (o ++ u) q
    behind-behind o u q = ap (λ x. record q { out = x }) (sym (append_assoc o u q.out))
