-- ===== src/Response/Detect/Tracks.antt =====
-- response.go, `detectFormat`: it leaves the data and what is kept of them.
use rapidyenc.Base.{arith, ◌∷◌, [], Bytes, Outcome, ret, panic, stuck}
use rapidyenc.Response.{Response, Decoder}
use rapidyenc.Response.Uu.{unstuff}
use rapidyenc.Response.Header.Keeps.{Keeps}
use rapidyenc.Response.Detect.{probably_uu, detect_short, detect_format}

-- What holds of the response that a call returns, if it returns one.
abbrev pub IfReturned : (Response → Type 0) → Outcome Response → Type 0
IfReturned P (ret q) = P q
IfReturned P panic = Unit
IfReturned P stuck = Unit

probably_uu-Keeps : (r : Response) (line : Bytes) → IfReturned (Keeps r) (probably_uu r line)
unfolding probably_uu
probably_uu-Keeps r [] = tt
probably_uu-Keeps r (c ∷ cs) = ground arith

pub detect_format-Keeps :
    (d : Decoder) (r : Response) (line : Bytes) → IfReturned (Keeps r) (detect_format d r line)
unfolding detect_format detect_short
detect_format-Keeps d r line = ground (arith, probably_uu-Keeps r (unstuff line))
