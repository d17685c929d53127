-- ===== src/Simd/Decode/Avx2/Lanes.antt =====
-- What the kernel does to a byte, told from the bytes around it, and that the automaton does the same.
use rapidyenc.Base.{
  ℕ, ◌≡◌, arith, Bool, true, false, not, ◌&&◌, ◌||◌, [], ◌∷◌, Bytes, drop, add_byte, ◌==◌,
  if◌then◌else◌,
}
use rapidyenc.Go.ByteStrings.{has_prefix}
use rapidyenc.Decoder.{State, crlf, eq, cr}
use rapidyenc.Go.Archsimd.{lane}
use rapidyenc.Simd.Decode.Probes.{ends_line}
use rapidyenc.Simd.Decode.Avx2.Tables.{neg_42, neg_106}

abbrev pub at_nl_dot : Bytes → Bool
at_nl_dot w = lane 0 w == b'\r' && lane 1 w == b'\n' && lane 2 w == b'.'

-- "\r\n.\r\n", "\r\n.=y" or "\r\n=y" stands here.
abbrev pub at_end : Bytes → Bool
at_end w =
    at_nl_dot w && (lane 3 w == b'\r' && lane 4 w == b'\n' || lane 3 w == b'=' && lane 4 w == b'y')
    || lane 0 w == b'\r' && lane 1 w == b'\n' && (lane 2 w == b'=' && lane 3 w == b'y')

-- What is known in front of a byte: it is to be unescaped; it is a stuffed dot; the next one is.
pub record Seen : Type 0 where
  pub esc : Bool
  pub dot : Bool
  pub later : Bool

abbrev pub seen_state : Seen → State
seen_state s = if s.esc then eq else if s.dot then crlf else if s.later then cr else State.none

abbrev pub is_special : ℕ → Bool
is_special c = c == b'\r' || c == b'\n' || c == b'='

abbrev pub is_gone : Seen → ℕ → Bool
is_gone s c = not s.esc && (is_special c || s.dot)

abbrev pub lane_out : Seen → ℕ → Bytes
lane_out s c = if is_gone s c then [] else add_byte c (if s.esc then neg_106 else neg_42) ∷ []

abbrev pub next_seen : Seen → Bytes → Seen
next_seen s w = record { esc = not s.esc && lane 0 w == b'='; dot = s.later; later = at_nl_dot w }

-- The dots that were seen ahead are there, with no end behind them.
abbrev pub is_sound : Seen → Bytes → Bool
is_sound s w =
    (not s.dot || not s.esc && (lane 0 w == b'.' && not (ends_line (drop 1 w))))
    && (not s.later
        || not s.esc
          && (not s.dot && (lane 0 w == b'\n' && (lane 1 w == b'.' && not (ends_line (drop 2 w))))))

module _ (a b c d e : ℕ) (r more : Bytes) where
  abbrev window : Bytes
  window = a ∷ b ∷ c ∷ d ∷ e ∷ r

  pub lane_sound :
      (x y z : Bool)
      → let s : Seen = record { esc = x; dot = y; later = z } in
        is_sound s window ≡ true
        → at_end window ≡ false
        → is_sound (next_seen s window) (drop 1 window) ≡ true
  unfolding has_prefix
  lane_sound x y z h n = ground arith
