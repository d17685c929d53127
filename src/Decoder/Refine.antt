-- ===== src/Decoder/Refine.antt =====
-- `decodeGeneric` against the automaton: the machine ends, never leaves its slices, and its result
-- says all that the automaton says, now and on any later input.
use rapidyenc.Base.{
  ℕ, zero, suc, ◌+◌, ◌*◌, ◌≤◌, ◌<◌, [], ◌∷◌, ◌++◌, ◌≡◌, refl, sym, ap, ◌∙◌, ◌≢◌, append-nil, ◌-◌,
  length-drop, arith, Bytes, length, drop, Outcome, ret, panic, stuck,
}
use mathlib.Core.Path.{subst}
use rapidyenc.Decoder.{
  State, crlf, End, control, article, Decoded, Cursor, Round, goto, stop, follow, step, run, enough,
  decode_generic,
}
use rapidyenc.Decoder.Automaton.{Result, read}
use rapidyenc.Decoder.Simulation.{resume_as, resume, rank, Room, Left, Valid, IsReturn, Good}
use rapidyenc.Decoder.Rounds.{Good-step}

abbrev Returns : (Decoded → Type 0) → Outcome Decoded → Type 0
Returns P (ret d) = P d
Returns P _ = ⊥

Room-cons : (s : State) (c : ℕ) (r : Bytes) → Room s (c ∷ r)
Room-cons s c r = ground arith

module _ (src more : Bytes) (v : Result) (dest_len : ℕ) (fits : length src ≤ dest_len) where
  follow-IsReturn :
      (n : ℕ) {m : ℕ} (r : Outcome Round) (loop : State → Cursor → Outcome Decoded)
      → ((s : State) (k : Cursor)
          → 3 * length k.rest + rank s < n
          → Room s k.rest
          → Valid src more v s k
          → Returns (IsReturn src more v) (loop s k))
      → m ≤ n
      → Good src more v m r
      → Returns (IsReturn src more v) (follow loop r)
  follow-IsReturn n (ret (goto s k)) loop ih h g = ih s k (omega arith) g.2 g.0
  follow-IsReturn n (ret (stop d)) loop ih h g = g
  follow-IsReturn n panic loop ih h g = elim g [ ]
  follow-IsReturn n stuck loop ih h g = elim g [ ]

  run-IsReturn :
      (n : ℕ) (s : State) (k : Cursor)
      → 3 * length k.rest + rank s < n
      → Room s k.rest
      → Valid src more v s k
      → Returns (IsReturn src more v) (run dest_len n s k)
  unfolding run
  run-IsReturn zero s k h room w = absurd (omega arith)
  run-IsReturn (suc n) s k h room w =
      follow-IsReturn n (step dest_len s k) (run dest_len n) (run-IsReturn n) (omega arith)
        (Good-step src more v dest_len fits s k room w)

pub ret-injective : {d e : Decoded} → ret d ≡ ret e → d ≡ e
ret-injective h = cc

pub record Refines (s : State) (src : Bytes) (d : Decoded) : Type 0 where
  pub inside : d.n_src ≤ length src
  pub fits : length d.decoded ≤ d.n_src
  pub left : Left d.ended d.state (drop d.n_src src)
  pub resumes : (more : Bytes) → resume d (drop d.n_src src ++ more) ≡ read [] s (src ++ more)

Returns-cases :
    (P : Decoded → Type 0) (r : Outcome Decoded) → Returns P r → (d : Decoded) × (r ≡ ret d) × P d
Returns-cases P (ret d) h = (d, refl, h)
Returns-cases P panic h = elim h [ ]
Returns-cases P stuck h = elim h [ ]

decode_generic-IsReturn :
    (dest_len : ℕ) (src : Bytes) (s : State) (more : Bytes)
    → length src ≤ dest_len
    → Returns (IsReturn src more (read [] s (src ++ more))) (decode_generic dest_len src s)
unfolding decode_generic read
decode_generic-IsReturn dest_len [] s more h = record {
  inside = omega arith;
  fits = omega arith;
  left = tt;
  resumes = refl;
}
decode_generic-IsReturn dest_len (c ∷ r) s more h =
    run-IsReturn (c ∷ r) more _ dest_len h (enough (c ∷ r)) s _ (rank_bound s) (Room-cons s c r)
      (record { here = refl; inside = omega arith; fits = omega arith; reads = refl })
  where
    rank_bound : (t : State) → 3 * length (c ∷ r) + rank t < enough (c ∷ r)
    rank_bound t = ground arith

-- With room in `dest` for as many bytes as `src` holds, `decodeGeneric` returns from every state: it
-- never runs out of its bounds. It produces no more bytes than it takes. Its output, state and end,
-- resumed on the bytes that it left and any that come later, give what the automaton gives on `src`
-- and those. Without an end it leaves nothing unread, but for "\r\n" in the state behind a line end.
pub decode_generic-Refines :
    (dest_len : ℕ) (src : Bytes) (s : State)
    → length src ≤ dest_len
    → (d : Decoded) × (decode_generic dest_len src s ≡ ret d) × Refines s src d
decode_generic-Refines dest_len src s h =
    let (d, e, now) = Returns-cases _ _ (decode_generic-IsReturn dest_len src s [] h) in
    (
      d,
      e,
      record {
        inside = now.inside;
        fits = now.fits;
        left = now.left;
        resumes = λ more. (rw e at (decode_generic-IsReturn dest_len src s more h)).resumes;
      },
    )

pub returned-Refines :
    (dest_len : ℕ) (src : Bytes) (s : State) (d : Decoded)
    → length src ≤ dest_len
    → decode_generic dest_len src s ≡ ret d
    → Refines s src d
returned-Refines dest_len src s d h e =
    let (d', e', w) = decode_generic-Refines dest_len src s h in
    let same : d' ≡ d = ret-injective (sym e' ∙ e) in subst (Refines s src) same w

resume_as-ended :
    (e : End) (out : Bytes) (s : State) (left : Bytes)
    → Left e s left
    → (resume_as e out s left).ended ≢ End.none
    → resume_as e out s left ≡ record { out = out; state = s; ended = e; rest = left }
unfolding read
resume_as-ended control out s left l h = refl
resume_as-ended article out s left l h = refl
resume_as-ended End.none out s [] l h = refl
resume_as-ended End.none out crlf (c ∷ d ∷ []) l h = absurd (h (ground arith))
resume_as-ended End.none out s (c ∷ r) l h = elim l [ ]

-- Where the automaton comes to an end within `src`, `decodeGeneric` reports just that.
pub decode_generic-read :
    (dest_len : ℕ) (src : Bytes) (s : State) (r : Result)
    → length src ≤ dest_len
    → read [] s src ≡ r
    → r.ended ≢ End.none
    → decode_generic dest_len src s
      ≡ ret (record {
        n_src = length src - length r.rest;
        decoded = r.out;
        state = r.state;
        ended = r.ended;
      })
decode_generic-read dest_len src s r h e ended =
    let (d, returns, w) = decode_generic-Refines dest_len src s h in
    let left = drop d.n_src src in
    let same : resume d left ≡ r = rw append-nil at (w.resumes []) ∙ rw append-nil e in
    let exact = resume_as-ended d.ended d.decoded d.state left w.left (rw same ended) in
    let is_r : record { out = d.decoded; state = d.state; ended = d.ended; rest = left } ≡ r =
      sym exact ∙ same in
    let taken : d.n_src ≡ length src - length r.rest =
      omega (arith, w.inside, length-drop d.n_src src, ap (λ (x : Result). length x.rest) is_r) in
    returns ∙ λ i. ret (record {
      n_src = taken i;
      decoded = (is_r i).out;
      state = (is_r i).state;
      ended = (is_r i).ended;
    })
