-- ===== src/Response/Decode/Ends.antt =====
-- response.go, `decode`: its loop over the lines ends.
use rapidyenc.Base.{
  ℕ, not, ◌&&◌, leb, Bool-cases, Option-cases, inl, inr, zero, suc, ◌+◌, ◌≤◌, ◌<◌, ◌≡◌, arith, Bool,
  true, false, some, [], ◌∷◌, Bytes, codes, length, length-drop, Finishes, Outcome, ret, panic,
  stuck, ◌>>=◌, if◌then◌else◌,
}
use rapidyenc.Base.Int.{ℤ, pos, negsuc, ◌+ℤ◌}
use rapidyenc.Go.Int64.{eq_ℤ}
use rapidyenc.Go.ByteStrings.{cut, has_prefix, equal}
use rapidyenc.Decoder.{State, decode_generic}
use rapidyenc.Decoder.Refine.{decode_generic-Refines}
use rapidyenc.Response.{Response, Decoder, Format, unknown, yenc, uu}
use rapidyenc.Response.Header.{process_yenc_header}
use rapidyenc.Response.Detect.{detect_format}
use rapidyenc.Response.Detect.Ends.{detect_format-Finishes}
use rapidyenc.Response.Yenc.{decode_yenc, ensure_data}
use rapidyenc.Response.Decode.{
  LineStep, next, leave, slice_from, status_line, yenc_line, by_format, on_line, is_unknown,
  is_yenc, then_step, line_loop, decode_lines, decode,
}

decode_generic-Finishes : (buf : Bytes) (s : State) → Finishes (decode_generic (length buf) buf s)
decode_generic-Finishes buf s =
    let (d, e, w) = decode_generic-Refines (length buf) buf s (omega arith) in rw e tt

decode_yenc-Finishes : (d : Decoder) (r : Response) (buf : Bytes) → Finishes (decode_yenc d r buf)
unfolding decode_yenc
decode_yenc-Finishes d r [] = tt
decode_yenc-Finishes d r (c ∷ cs) =
    ground (arith, decode_generic-Finishes (ensure_data d r (c ∷ cs)).1 r.state)

-- The loop goes on with at most so many bytes.
abbrev Shrinks : ℕ → Outcome LineStep → Type 0
Shrinks n (ret (next read r buf)) = length buf ≤ n
Shrinks n (ret (leave read r)) = Unit
Shrinks n panic = Unit
Shrinks n stuck = ⊥

-- What is left of `buf` is no longer.
abbrev IsRest : Bytes → Outcome Bytes → Type 0
IsRest buf (ret rest) = length rest ≤ length buf
IsRest buf panic = Unit
IsRest buf stuck = ⊥

slice_from-IsRest : (buf : Bytes) (n : ℤ) → IsRest buf (slice_from buf n)
slice_from-IsRest buf (negsuc n) = tt
slice_from-IsRest buf (pos n) = ground (arith, length-drop n buf)

if-Shrinks :
    (n : ℕ) (b : Bool) (x y : Outcome LineStep)
    → Shrinks n x
    → Shrinks n y
    → Shrinks n (if b then x else y)
if-Shrinks n true x y hx hy = hx
if-Shrinks n false x y hx hy = hy

module _ (read : ℤ) (buf : Bytes) where
  rest-Shrinks :
      (q : Response) (n : ℤ) (o : Outcome Bytes)
      → IsRest buf o
      → Shrinks
          (length buf)
          (o >>= λ rest. ret (if q.body then leave (read +ℤ n) q else next (read +ℤ n) q rest))
  rest-Shrinks q n (ret rest) h = ground arith
  rest-Shrinks q n panic h = tt
  rest-Shrinks q n stuck h = h

  decoded-Shrinks :
      (o : Outcome (ℤ × Response))
      → Finishes o
      → Shrinks (length buf) (
          o >>= λ x. slice_from buf x.0 >>= λ rest.
          ret (if x.1.body then leave (read +ℤ x.0) x.1 else next (read +ℤ x.0) x.1 rest))
  decoded-Shrinks (ret (n, q)) h = rest-Shrinks q n (slice_from buf n) (slice_from-IsRest buf n)
  decoded-Shrinks panic h = tt
  decoded-Shrinks stuck h = h

yenc_line-Shrinks :
    (d : Decoder) (read : ℤ) (r : Response) (line buf : Bytes)
    → Shrinks (length buf) (yenc_line d read r line buf)
unfolding yenc_line
yenc_line-Shrinks d read r line buf =
    let q = process_yenc_header r line in
    let decoded = decoded-Shrinks read buf (decode_yenc d q buf) (decode_yenc-Finishes d q buf) in
    if-Shrinks _ q.body _ (ret (next read q buf)) decoded (omega arith)

status_line-Shrinks :
    (read : ℤ) (r : Response) (line buf : Bytes)
    → Shrinks (length buf) (ret (status_line read r line buf))
unfolding status_line
status_line-Shrinks read r line buf = ground arith

by_format-Shrinks :
    (d : Decoder) (read : ℤ) (f : Format) (r : Response) (line buf : Bytes)
    → Shrinks (length buf) (by_format d read f r line buf)
unfolding by_format
by_format-Shrinks d read unknown r line buf = omega arith
by_format-Shrinks d read yenc r line buf = yenc_line-Shrinks d read r line buf
by_format-Shrinks d read uu r line buf = omega arith

detected-Shrinks :
    (d : Decoder) (read : ℤ) (line buf : Bytes) (o : Outcome Response)
    → Finishes o
    → Shrinks (length buf) (o >>= λ q. by_format d read q.metadata.format q line buf)
detected-Shrinks d read line buf (ret q) h = by_format-Shrinks d read _ q line buf
detected-Shrinks d read line buf panic h = tt
detected-Shrinks d read line buf stuck h = h

on_line-Shrinks :
    (d : Decoder) (read : ℤ) (r : Response) (line buf : Bytes)
    → Shrinks (length buf) (on_line d read r line buf)
unfolding on_line
on_line-Shrinks d read r line buf = if-Shrinks _ (equal line (codes ".")) _ _ tt (
    if-Shrinks _ (is_unknown r.metadata.format) _ _
      (if-Shrinks _
        (not d.status_line_consumed && eq_ℤ r.metadata.status_code (pos 0) && leb 3 (length line))
        (ret (status_line read r line buf)) _ (status_line-Shrinks read r line buf)
        (detected-Shrinks d read line buf (detect_format d r line)
          (detect_format-Finishes d r line)))
      (by_format-Shrinks d read _ r line buf))

cut-shorter :
    (xs line rest : Bytes) → cut xs (codes "\r\n") ≡ some (line, rest) → length rest < length xs
unfolding cut has_prefix
cut-shorter [] line rest e = absurd cc
cut-shorter (x ∷ xs) line rest e = elim (Bool-cases (has_prefix (x ∷ xs) (codes "\r\n"))) [
  | inl here ↦ ground (arith, rw here at e, length-drop 2 (x ∷ xs))
  | inr later ↦ elim (Option-cases (cut xs (codes "\r\n"))) [
    | inl no_line ↦ absurd (ground (arith, rw (later, no_line) at e))
    | inr ((before, behind), found) ↦
        ground (arith, rw (later, found) at e, cut-shorter xs before behind found)
  ]
]

module _ (d : Decoder) where
  step-Finishes :
      (fuel n : ℕ) (o : Outcome LineStep)
      → n ≤ fuel
      → Shrinks n o
      → ((read : ℤ) (r : Response) (buf : Bytes)
          → length buf ≤ fuel
          → Finishes (line_loop d fuel read r buf))
      → Finishes (o >>= then_step (line_loop d fuel))
  step-Finishes fuel n (ret (next read r buf)) h s loop = loop read r buf (omega arith)
  step-Finishes fuel n (ret (leave read r)) h s loop = tt
  step-Finishes fuel n panic h s loop = tt
  step-Finishes fuel n stuck h s loop = s

  line_loop-Finishes :
      (fuel : ℕ) (read : ℤ) (r : Response) (buf : Bytes)
      → length buf ≤ fuel
      → Finishes (line_loop d fuel read r buf)
  unfolding line_loop
  line_loop-Finishes zero read r buf h = elim (Option-cases (cut buf (codes "\r\n"))) [
    | inl no_line ↦ rw no_line tt
    | inr ((line, rest), found) ↦ absurd (omega (arith, cut-shorter buf line rest found))
  ]
  line_loop-Finishes (suc fuel) read r buf h = elim (Option-cases (cut buf (codes "\r\n"))) [
    | inl no_line ↦ rw no_line tt
    | inr ((line, rest), found) ↦ rw found (
        step-Finishes fuel (length rest) (on_line d (read +ℤ pos (length line + 2)) r line rest)
          (omega (arith, cut-shorter buf line rest found)) (on_line-Shrinks d _ r line rest)
          (line_loop-Finishes fuel))
  ]

  decode_lines-Finishes :
      (read : ℤ) (r : Response) (buf : Bytes) → Finishes (decode_lines d read r buf)
  unfolding decode_lines
  decode_lines-Finishes read r buf =
      ground (arith, line_loop-Finishes (length buf) read r buf (omega arith))

  rest-Finishes :
      (q : Response) (n : ℤ) (o : Outcome Bytes) (buf : Bytes)
      → IsRest buf o
      → Finishes (o >>= λ rest. (if q.body then ret (n, q) else decode_lines d n q rest))
  rest-Finishes q n (ret rest) buf h = ground (arith, decode_lines-Finishes n q rest)
  rest-Finishes q n panic buf h = tt
  rest-Finishes q n stuck buf h = h

  body-Finishes :
      (buf : Bytes) (o : Outcome (ℤ × Response))
      → Finishes o
      → Finishes (
          o >>= λ x. slice_from buf x.0 >>= λ rest.
          (if x.1.body then ret (x.0, x.1) else decode_lines d x.0 x.1 rest))
  body-Finishes buf (ret (n, q)) h =
      rest-Finishes q n (slice_from buf n) buf (slice_from-IsRest buf n)
  body-Finishes buf panic h = tt
  body-Finishes buf stuck h = h

  if-Finishes :
      (b : Bool) (x y : Outcome (ℤ × Response))
      → Finishes x
      → Finishes y
      → Finishes (if b then x else y)
  if-Finishes true x y hx hy = hx
  if-Finishes false x y hx hy = hy

  -- The loops of `decode` end on every response and all bytes: it returns, or it panics.
  pub decode-Finishes : (r : Response) (buf : Bytes) → Finishes (decode d r buf)
  unfolding decode
  decode-Finishes r buf =
      if-Finishes (r.body && is_yenc r.metadata.format) _ _
        (body-Finishes buf (decode_yenc d r buf) (decode_yenc-Finishes d r buf))
        (decode_lines-Finishes (pos 0) r buf)
