-- ===== src/Response/Decode/Tracks.antt =====
-- response.go, `decode` and `feed`: the checksum and the size that a response keeps are those of its
-- data, and so an article that is accepted has the data that its trailer promised.
use mathlib.Core.Path.{subst}
use rapidyenc.Base.{
  Bool-cases, ℕ, ◌||◌, zero, suc, ◌+◌, ◌≡◌, refl, sym, ◌∙◌, Bool, true, false, not, ◌&&◌, Option,
  none, some, Bytes, codes, length, take, leb, Outcome, ret, panic, stuck, ◌>>=◌, if◌then◌else◌,
  inl, inr, ◌⊎◌,
}
use rapidyenc.Base.Int.{ℤ, pos, ◌+ℤ◌}
use rapidyenc.Go.Int64.{add_int64, eq_ℤ, wrap64}
use rapidyenc.Go.ByteStrings.{cut, equal}
use rapidyenc.Go.Crc32.{update}
use rapidyenc.Go.Strconv.{parse_int}
use rapidyenc.Response.{Response, Decoder, Format, unknown, yenc, uu, is_multiline, new_response}
use rapidyenc.Response.Header.{process_yenc_header}
use rapidyenc.Response.Header.Keeps.{Keeps, process_yenc_header-Keeps}
use rapidyenc.Response.Uu.Tracks.{decode_uu-IsTracked}
use rapidyenc.Response.Detect.{detect_format}
use rapidyenc.Response.Detect.Tracks.{IfReturned, detect_format-Keeps}
use rapidyenc.Response.Yenc.{bytes_of, decode_yenc}
use rapidyenc.Response.Yenc.Tracks.{IsTracked, Leaves, decode_yenc-IsTracked}
use rapidyenc.Response.Decode.{
  LineStep, next, leave, slice_from, status_line, yenc_line, by_format, on_line, is_unknown,
  is_yenc, then_step, on_cut, line_loop, decode_lines, decode, Fed, feed, meta_error,
}
use rapidyenc.Response.Decode.Checks.{meta_error_iff}

Keeps-IsTracked : (r q : Response) → Keeps r q → IsTracked r → IsTracked q
Keeps-IsTracked r q (contents, crc, produced) t = rw (contents, crc, produced) t

-- The response with which the loop goes on or ends is tracked.
abbrev LineTracked : LineStep → Type 0
LineTracked (next read r buf) = IsTracked r
LineTracked (leave read r) = IsTracked r

if-LineTracked :
    (b : Bool) (x y : LineStep) → LineTracked x → LineTracked y → LineTracked (if b then x else y)
if-LineTracked true x y hx hy = hx
if-LineTracked false x y hx hy = hy

abbrev StepTracked : Outcome LineStep → Type 0
StepTracked (ret x) = LineTracked x
StepTracked panic = Unit
StepTracked stuck = Unit

if-StepTracked :
    (b : Bool) (x y : Outcome LineStep)
    → StepTracked x
    → StepTracked y
    → StepTracked (if b then x else y)
if-StepTracked true x y hx hy = hx
if-StepTracked false x y hx hy = hy

module _ (read : ℤ) where
  rest-StepTracked :
      (q : Response) (n : ℤ) (o : Outcome Bytes)
      → IsTracked q
      → StepTracked
          (o >>= λ rest. ret (if q.body then leave (read +ℤ n) q else next (read +ℤ n) q rest))
  rest-StepTracked q n (ret rest) t =
      if-LineTracked q.body (leave (read +ℤ n) q) (next (read +ℤ n) q rest) t t
  rest-StepTracked q n panic t = tt
  rest-StepTracked q n stuck t = tt

  decoded-StepTracked :
      (buf : Bytes) (o : Outcome (ℤ × Response))
      → Leaves IsTracked o
      → StepTracked (
          o >>= λ x. slice_from buf x.0 >>= λ rest.
          ret (if x.1.body then leave (read +ℤ x.0) x.1 else next (read +ℤ x.0) x.1 rest))
  decoded-StepTracked buf (ret (n, q)) t = rest-StepTracked q n (slice_from buf n) t
  decoded-StepTracked buf panic t = tt
  decoded-StepTracked buf stuck t = tt

module _ (d : Decoder) (read : ℤ) where
  by_format-StepTracked :
      (f : Format) (r : Response) (line buf : Bytes)
      → IsTracked r
      → StepTracked (by_format d read f r line buf)
  unfolding by_format yenc_line
  by_format-StepTracked unknown r line buf t = t
  by_format-StepTracked yenc r line buf t =
      let q = process_yenc_header r line in
      let kept = Keeps-IsTracked r q (process_yenc_header-Keeps r line) t in
      if-StepTracked q.body _ (ret (next read q buf))
        (decoded-StepTracked read buf (decode_yenc d q buf) (decode_yenc-IsTracked d q buf kept))
        kept
  by_format-StepTracked uu r line buf t = decode_uu-IsTracked d r line t

  detected-StepTracked :
      (r : Response) (line buf : Bytes) (o : Outcome Response)
      → IsTracked r
      → IfReturned (Keeps r) o
      → StepTracked (o >>= λ q. by_format d read q.metadata.format q line buf)
  detected-StepTracked r line buf (ret q) t k =
      by_format-StepTracked q.metadata.format q line buf (Keeps-IsTracked r q k t)
  detected-StepTracked r line buf panic t k = tt
  detected-StepTracked r line buf stuck t k = tt

  status_line-StepTracked :
      (r : Response) (line buf : Bytes)
      → IsTracked r
      → StepTracked (ret (status_line read r line buf))
  unfolding status_line
  status_line-StepTracked r line buf t =
      let (code, ok) = parse_int (take 3 line) in
      let told = record r { metadata = record r.metadata { message = line; status_code = code } } in
      if-LineTracked (not ok || not (is_multiline code)) (leave read (record told { eof = true }))
        (next read told buf) t t

  on_line-StepTracked :
      (r : Response) (line buf : Bytes) → IsTracked r → StepTracked (on_line d read r line buf)
  unfolding on_line
  on_line-StepTracked r line buf t =
      if-StepTracked (equal line (codes ".")) (ret (leave read (record r { eof = true }))) _ t (
        if-StepTracked (is_unknown r.metadata.format) _ _
          (if-StepTracked
            (not d.status_line_consumed
              && eq_ℤ r.metadata.status_code (pos 0)
              && leb 3 (length line))
            (ret (status_line read r line buf)) _ (status_line-StepTracked r line buf t)
            (detected-StepTracked r line buf (detect_format d r line) t
              (detect_format-Keeps d r line)))
          (by_format-StepTracked r.metadata.format r line buf t))

module _ (d : Decoder) where
  step-Leaves :
      (loop : ℤ → Response → Bytes → Outcome (ℤ × Response)) (o : Outcome LineStep)
      → ((read : ℤ) (r : Response) (buf : Bytes) → IsTracked r → Leaves IsTracked (loop read r buf))
      → StepTracked o
      → Leaves IsTracked (o >>= then_step loop)
  step-Leaves loop (ret (next read r buf)) later t = later read r buf t
  step-Leaves loop (ret (leave read r)) later t = t
  step-Leaves loop panic later t = tt
  step-Leaves loop stuck later t = tt

  on_cut-Leaves :
      (loop : ℤ → Response → Bytes → Outcome (ℤ × Response)) (read : ℤ) (r : Response)
      (o : Option (Bytes × Bytes))
      → ((read : ℤ) (r : Response) (buf : Bytes) → IsTracked r → Leaves IsTracked (loop read r buf))
      → IsTracked r
      → Leaves IsTracked (on_cut d loop read r o)
  on_cut-Leaves loop read r none later t = t
  on_cut-Leaves loop read r (some (line, rest)) later t =
      step-Leaves loop (on_line d (read +ℤ pos (length line + 2)) r line rest) later
        (on_line-StepTracked d _ r line rest t)

  line_loop-Leaves :
      (fuel : ℕ) (read : ℤ) (r : Response) (buf : Bytes)
      → IsTracked r
      → Leaves IsTracked (line_loop d fuel read r buf)
  unfolding line_loop
  line_loop-Leaves zero read r buf t =
      on_cut-Leaves (λ read' r' buf'. stuck) read r (cut buf (codes "\r\n"))
        (λ read' r' buf' t'. tt) t
  line_loop-Leaves (suc fuel) read r buf t =
      on_cut-Leaves (line_loop d fuel) read r (cut buf (codes "\r\n")) (line_loop-Leaves fuel) t

  if-Leaves :
      (b : Bool) (x y : Outcome (ℤ × Response))
      → Leaves IsTracked x
      → Leaves IsTracked y
      → Leaves IsTracked (if b then x else y)
  if-Leaves true x y hx hy = hx
  if-Leaves false x y hx hy = hy

  decode_lines-Leaves :
      (read : ℤ) (r : Response) (buf : Bytes)
      → IsTracked r
      → Leaves IsTracked (decode_lines d read r buf)
  unfolding decode_lines
  decode_lines-Leaves read r buf t =
      if-Leaves r.body (ret (read, r)) _ t (line_loop-Leaves (length buf) read r buf t)

  rest-Leaves :
      (q : Response) (n : ℤ) (o : Outcome Bytes)
      → IsTracked q
      → Leaves IsTracked (o >>= λ rest. (if q.body then ret (n, q) else decode_lines d n q rest))
  rest-Leaves q n (ret rest) t = if-Leaves q.body (ret (n, q)) _ t (decode_lines-Leaves n q rest t)
  rest-Leaves q n panic t = tt
  rest-Leaves q n stuck t = tt

  body-Leaves :
      (buf : Bytes) (o : Outcome (ℤ × Response))
      → Leaves IsTracked o
      → Leaves IsTracked (
          o >>= λ x. slice_from buf x.0 >>= λ rest.
          (if x.1.body then ret (x.0, x.1) else decode_lines d x.0 x.1 rest))
  body-Leaves buf (ret (n, q)) t = rest-Leaves q n (slice_from buf n) t
  body-Leaves buf panic t = tt
  body-Leaves buf stuck t = tt

  decode-Leaves : (r : Response) (buf : Bytes) → IsTracked r → Leaves IsTracked (decode d r buf)
  unfolding decode
  decode-Leaves r buf t =
      if-Leaves (r.body && is_yenc r.metadata.format) _ _
        (body-Leaves buf (decode_yenc d r buf) (decode_yenc-IsTracked d r buf t))
        (decode_lines-Leaves (pos 0) r buf t)

pub new_response-IsTracked : IsTracked new_response
unfolding update wrap64
new_response-IsTracked = record { bytes = tt; summed = refl; counted = refl }

-- What a feed says of the response that it returns.
record IsFed (f : Fed) : Type 0 where
  tracked : IsTracked f.response
  judged : f.done ≡ true → f.error ≡ meta_error f.response

abbrev FedLeaves : Outcome Fed → Type 0
FedLeaves (ret f) = IsFed f
FedLeaves panic = Unit
FedLeaves stuck = Unit

fed-IsFed :
    (n : ℤ) (q : Response)
    → IsTracked q
    → FedLeaves (
        ret (
          if q.eof
          then record { consumed = n; done = true; error = meta_error q; response = q }
          else record { consumed = n; done = false; error = none; response = q }))
fed-IsFed n q t = elim (Bool-cases q.eof) [
  | inl over ↦ rw over (record { tracked = t; judged = λ e. refl })
  | inr more ↦ rw more (record { tracked = t; judged = λ e. absurd cc })
]

decoded-FedLeaves :
    (o : Outcome (ℤ × Response))
    → Leaves IsTracked o
    → FedLeaves (
        o >>= λ x.
        let q = record x.1 {
          metadata = record x.1.metadata {
            bytes_consumed = add_int64 x.1.metadata.bytes_consumed x.0;
          };
        } in
        ret (
          if q.eof
          then record { consumed = x.0; done = true; error = meta_error q; response = q }
          else record { consumed = x.0; done = false; error = none; response = q }))
decoded-FedLeaves (ret (n, q)) t = fed-IsFed n _ t
decoded-FedLeaves panic t = tt
decoded-FedLeaves stuck t = tt

feed-FedLeaves : (d : Decoder) (r : Response) (buf : Bytes) → IsTracked r → FedLeaves (feed d r buf)
unfolding feed
feed-FedLeaves d r buf t = decoded-FedLeaves (decode d r buf) (decode-Leaves d r buf t)

returned-IsFed : (o : Outcome Fed) (f : Fed) → FedLeaves o → o ≡ ret f → IsFed f
returned-IsFed o f h e = subst FedLeaves e h

-- After any feed that returns, the checksum and the number of bytes that the response keeps are those
-- of its data, if they were before, in yEnc, UU and text alike; the number is counted on an int64.
pub feed-IsTracked :
    (d : Decoder) (r : Response) (buf : Bytes) (f : Fed)
    → IsTracked r
    → feed d r buf ≡ ret f
    → IsTracked f.response
feed-IsTracked d r buf f t e = (returned-IsFed _ f (feed-FedLeaves d r buf t) e).tracked

-- The data of a response have the size and the checksum that were promised for them, where they were;
-- the size is counted on an int64.
pub record IsVerified (r : Response) : Type 0 where
  pub begun : r.has_begin ≡ true
  pub ended : r.has_end ≡ true
  pub sized :
      r.has_part ≡ false ⊎ r.metadata.meta.part_size ≡ wrap64 (pos (length (bytes_of r.contents)))
  pub summed : r.has_crc ≡ false ⊎ r.metadata.expected_crc ≡ update 0 (bytes_of r.contents)

-- A yEnc article whose feed is done without an error is what was posted: header and trailer were seen,
-- the data have the size that its part declared, counted on an int64, and the CRC-32 that its trailer
-- gave, where there was one.
pub feed-IsVerified :
    (d : Decoder) (r : Response) (buf : Bytes) (f : Fed)
    → IsTracked r
    → feed d r buf ≡ ret f
    → f.done ≡ true
    → f.error ≡ none
    → f.response.metadata.format ≡ yenc
    → IsVerified f.response
feed-IsVerified d r buf f t e done fine format =
    let w = returned-IsFed _ f (feed-FedLeaves d r buf t) e in
    let c = (meta_error_iff f.response format).0 (sym (w.judged done) ∙ fine) in
    record {
      begun = c.begun;
      ended = c.ended;
      sized = rw w.tracked.counted at c.part;
      summed = rw w.tracked.summed at c.summed;
    }
