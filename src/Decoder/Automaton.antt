-- ===== src/Decoder/Automaton.antt =====
-- An independent description of yEnc decoding inside an NNTP stream: an automaton that reads one
-- byte at a time. It removes the stuffed dot of a line, and ends at "=y" at the start of a line and
-- at the line ".".
use rapidyenc.Base.{ℕ, [], ◌∷◌, ◌++◌, Bytes, ◌==◌, if◌then◌else◌}
use rapidyenc.Decoder.{
  State, crlf, eq, cr, crlfdt, crlfdtcr, crlfeq, End, control, article, plain, unescaped,
}

-- What one byte does.
pub data Act : Type 0 where
  emit : ℕ → State → Act
  skip : State → Act
  halt : State → End → Act

-- Behind any byte but those of a line end, a line start or an escape.
unfoldable pub on_none : ℕ → Act
on_none c =
    if c == b'\r'
    then skip cr
    else if c == b'\n'
    then skip State.none
    else if c == b'='
    then skip eq
    else emit (plain c) State.none

unfoldable pub on_eq : ℕ → Act
on_eq c = emit (unescaped c) (if c == b'\r' then cr else State.none)

unfoldable pub on_byte : State → ℕ → Act
on_byte State.none c = on_none c
on_byte eq c = on_eq c
on_byte cr c = if c == b'\n' then skip crlf else on_none c
on_byte crlf c = if c == b'.' then skip crlfdt else if c == b'=' then skip crlfeq else on_none c
on_byte crlfdt c =
    if c == b'\r' then skip crlfdtcr else if c == b'=' then skip crlfeq else on_none c
on_byte crlfdtcr c = if c == b'\n' then halt crlf article else on_none c
on_byte crlfeq c = if c == b'y' then halt State.none control else on_eq c

pub record Result : Type 0 where
  pub out : Bytes
  pub state : State
  pub ended : End
  pub rest : Bytes

-- What follows one act, with `on` for the reading of the rest.
abbrev pub act : (Bytes → State → Result) → Bytes → Bytes → Act → Result
act on out cs (emit b t) = on (out ++ (b ∷ [])) t
act on out cs (skip t) = on out t
act on out cs (halt t e) = record { out = out; state = t; ended = e; rest = cs }

-- The bytes decoded behind `out`, the last state, and what an end leaves unread.
unfoldable pub read : Bytes → State → Bytes → Result
unfolding on_byte on_none on_eq
read out s [] = record { out = out; state = s; ended = End.none; rest = [] }
read out s (c ∷ cs) = act (λ o t. read o t cs) out cs (on_byte s c)
