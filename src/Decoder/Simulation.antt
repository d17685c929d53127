-- ===== src/Decoder/Simulation.antt =====
-- One step of the machine of `decodeGeneric` keeps what the automaton has still to say.
use rapidyenc.Base.{
  ℕ, zero, suc, ◌+◌, ◌*◌, ◌≤◌, ◌<◌, [], ◌∷◌, ◌++◌, ◌≡◌, arith, Bytes, length, drop, Outcome, ret,
  panic, stuck, length-append,
}
use rapidyenc.Decoder.{
  State, crlf, eq, cr, crlfdt, crlfdtcr, crlfeq, End, Decoded, Cursor, Round, goto, stop, plain,
  unescaped, step_crlfeq, step_eq, step_cr, step_crlf, step_crlfdt, step_crlfdtcr, loop_crlfeq,
  loop_crlfdtcr, last_char,
}
use rapidyenc.Decoder.Automaton.{Result, read}

pub drop-suc : (n : ℕ) (xs : Bytes) {c : ℕ} {r : Bytes} → drop n xs ≡ c ∷ r → drop (n + 1) xs ≡ r
drop-suc zero [] h = cc
drop-suc zero (x ∷ xs) h = cc
drop-suc (suc n) [] h = cc
drop-suc (suc n) (x ∷ xs) h = ground (arith, drop-suc n xs h)

-- What the automaton gives on `rest` behind what a call returned.
abbrev pub resume_as : End → Bytes → State → Bytes → Result
resume_as End.none out s rest = read out s rest
resume_as e out s rest = record { out = out; state = s; ended = e; rest = rest }

abbrev pub resume : Decoded → Bytes → Result
resume d rest = resume_as d.ended d.decoded d.state rest

abbrev pub rank : State → ℕ
rank State.none = 0
rank crlfeq = 2
rank _ = 1

-- Only `done` is reached with nothing left to read.
abbrev pub Room : State → Bytes → Type 0
Room State.none r = Unit
Room s [] = ⊥
Room s (c ∷ r) = Unit

-- What a call may leave unread: nothing without an end, but for a line end whose state it gives.
abbrev pub Left : End → State → Bytes → Type 0
Left End.none s [] = Unit
Left End.none crlf (c ∷ d ∷ []) = (c ≡ b'\r') × (d ≡ b'\n')
Left End.none s (c ∷ r) = ⊥
Left e s r = Unit

module _ (src more : Bytes) (v : Result) where
  -- At label `s` with cursor `k`, in a call on `src` whose meaning is `v` when `more` follows.
  pub record Valid (s : State) (k : Cursor) : Type 0 where
    pub here : drop k.pos src ≡ k.rest
    pub inside : k.pos + length k.rest ≡ length src
    pub fits : length k.out ≤ k.pos
    pub reads : read k.out s (k.rest ++ more) ≡ v

  pub record IsReturn (d : Decoded) : Type 0 where
    pub inside : d.n_src ≤ length src
    pub fits : length d.decoded ≤ d.n_src
    pub left : Left d.ended d.state (drop d.n_src src)
    pub resumes : resume d (drop d.n_src src ++ more) ≡ v

  abbrev pub Good : ℕ → Outcome Round → Type 0
  Good n (ret (goto s k)) = Valid s k × (3 * length k.rest + rank s < n) × Room s k.rest
  Good n (ret (stop d)) = IsReturn d
  Good n panic = ⊥
  Good n stuck = ⊥

  module _ (dest_len p : ℕ) (o : Bytes) (enough : length src ≤ dest_len) where
    abbrev pub cursor : Bytes → Cursor
    cursor r = record { rest = r; pos = p; out = o }

    pub Good-crlfeq :
        (c : ℕ) (r : Bytes)
        → Valid crlfeq (cursor (c ∷ r))
        → Good (3 * length (c ∷ r) + 2) (step_crlfeq dest_len (cursor (c ∷ r)) (c ∷ r))
    unfolding step_crlfeq read
    Good-crlfeq c r w = ground (arith, drop-suc p src w.here)

    pub Good-eq :
        (c : ℕ) (r : Bytes)
        → Valid eq (cursor (c ∷ r))
        → Good (3 * length (c ∷ r) + 1) (step_eq dest_len (cursor (c ∷ r)) (c ∷ r))
    unfolding step_eq read
    Good-eq c [] w = ground (arith, drop-suc p src w.here, length-append o (unescaped c ∷ []))
    Good-eq c (d ∷ r) w = ground (arith, drop-suc p src w.here, length-append o (unescaped c ∷ []))

    pub Good-cr :
        (c : ℕ) (r : Bytes)
        → Valid cr (cursor (c ∷ r))
        → Good (3 * length (c ∷ r) + 1) (step_cr dest_len (cursor (c ∷ r)) (c ∷ r))
    unfolding step_cr read
    Good-cr c [] w = ground (arith, drop-suc p src w.here)
    Good-cr c (d ∷ r) w = ground (arith, drop-suc p src w.here)

    pub Good-crlf :
        (c : ℕ) (r : Bytes)
        → Valid crlf (cursor (c ∷ r))
        → Good (3 * length (c ∷ r) + 1) (step_crlf dest_len (cursor (c ∷ r)) (c ∷ r))
    unfolding step_crlf read
    Good-crlf c [] w = ground (arith, drop-suc p src w.here)
    Good-crlf c (d ∷ r) w = ground (arith, drop-suc p src w.here)

    pub Good-crlfdt :
        (c : ℕ) (r : Bytes)
        → Valid crlfdt (cursor (c ∷ r))
        → Good (3 * length (c ∷ r) + 1) (step_crlfdt dest_len (cursor (c ∷ r)) (c ∷ r))
    unfolding step_crlfdt read
    Good-crlfdt c [] w = ground (arith, drop-suc p src w.here)
    Good-crlfdt c (d ∷ r) w = ground (arith, drop-suc p src w.here)

    pub Good-crlfdtcr :
        (c : ℕ) (r : Bytes)
        → Valid crlfdtcr (cursor (c ∷ r))
        → Good (3 * length (c ∷ r) + 1) (step_crlfdtcr dest_len (cursor (c ∷ r)) (c ∷ r))
    unfolding step_crlfdtcr read
    Good-crlfdtcr c r w = ground (arith, drop-suc p src w.here)

    pub Good-loop_crlfeq :
        (n : ℕ) (r : Bytes)
        → 3 * length r < n
        → length o < p
        → Valid crlfeq (cursor r)
        → Good n (loop_crlfeq dest_len (cursor r) r)
    unfolding loop_crlfeq read
    Good-loop_crlfeq n [] h slack w = ground arith
    Good-loop_crlfeq n (c ∷ r) h slack w =
        ground (arith, drop-suc p src w.here, length-append o (unescaped c ∷ []))

    pub Good-loop_crlfdtcr :
        (n : ℕ) (r : Bytes)
        → 3 * length r < n
        → Valid crlfdtcr (cursor r)
        → Good n (loop_crlfdtcr dest_len (cursor r) r)
    unfolding loop_crlfdtcr read
    Good-loop_crlfdtcr n [] h w = ground arith
    Good-loop_crlfdtcr n (c ∷ r) h w = ground (arith, drop-suc p src w.here)

    pub Good-last_char :
        (n : ℕ) (r : Bytes)
        → length r ≤ 1
        → Valid State.none (cursor r)
        → Good n (last_char dest_len (cursor r) r)
    unfolding last_char read
    Good-last_char n [] h w = ground arith
    Good-last_char n (c ∷ []) h w =
        ground (arith, drop-suc p src w.here, length-append o (plain c ∷ []))
    Good-last_char n (c ∷ d ∷ r) h w = absurd (omega arith)
