-- ===== src/Response/Yenc/Body.antt =====
-- response.go, `decodeYenc`: the buffer that it keeps takes all that it decodes.
use rapidyenc.Base.{
  ℕ, ◌+◌, ◌-◌, ◌*◌, ◌≤◌, true, false, Option, none, some, [], ◌∷◌, ◌++◌, ◌≡◌, refl, ap, ◌∙◌, arith,
  Bytes, length, take, ltb, leb, leb→le, ltb→lt, leb-lt, le-ltb, ltb-le, length-zero, ret,
  Bool-cases, inl, inr, length-append, length-take, take-all, append-nil,
}
use rapidyenc.Base.Int.{ℤ, pos, ◌-ℤ◌}
use rapidyenc.Decoder.{State, End, article, control, crlfeq, Decoded, decode_generic}
use rapidyenc.Decoder.Refine.{decode_generic-Refines}
use rapidyenc.Response.{Response, ResponseMeta, Buffer, Decoder}
use rapidyenc.Response.Yenc.{
  bytes_of, capacity_of, current_buffer, first_buffer, fit, grow, ensure_data, take_decoded, at_end,
  decode_yenc,
}

-- A slice is not longer than its capacity.
abbrev pub IsSlice : Buffer → Type 0
IsSlice b = length b.bytes ≤ b.capacity

-- `append` makes a slice of at least the size that it is asked for.
abbrev pub CanGrow : Decoder → Type 0
CanGrow d = (n : ℕ) → n ≤ d.go.append_capacity n

grow-le : (d : Decoder) (b : Buffer) (n : ℕ) → CanGrow d → n ≤ (grow d b n).capacity
unfolding grow
grow-le d b n can = let k = can n in let j = can (2 * b.capacity) in ground arith

pub grow-bytes : (d : Decoder) (b : Buffer) (n : ℕ) → (grow d b n).bytes ≡ b.bytes
unfolding grow
grow-bytes d b n = ground arith

-- What `ensureData` gives: a buffer with the same bytes that takes the whole of a part of `buf`, which
-- stands at its front and is not empty.
pub record Fits (b b' : Buffer) (buf part : Bytes) : Type 0 where
  pub same : b'.bytes ≡ b.bytes
  pub room : length b'.bytes + length part ≤ b'.capacity
  pub front : take (length part) buf ≡ part
  pub some_part : 1 ≤ length part

fit-Fits :
    (d : Decoder) (b : Buffer) (buf : Bytes)
    → CanGrow d
    → IsSlice b
    → 1 ≤ length buf
    → Fits b (fit d b buf).0 buf (fit d b buf).1
unfolding fit
fit-Fits d b buf can v h = elim (Bool-cases (leb (length buf) (b.capacity - length b.bytes))) [
  | inl whole ↦ rw whole (record {
    same = refl;
    room = omega (arith, v, leb→le _ _ whole);
    front = take-all (length buf) buf (omega arith);
    some_part = h;
  })
  | inr less ↦ elim (Bool-cases (ltb 0 (b.capacity - length b.bytes))) [
    | inl space ↦
        let n = b.capacity - length b.bytes in
        let l : length (take n buf) ≡ n = omega (arith, length-take n buf, leb-lt _ _ less) in
        rw (less, space)
          (record {
            same = refl;
            room = omega (arith, v, l);
            front = ap (λ k. take k buf) l;
            some_part = omega (arith, l, ltb→lt _ _ space);
          })
    | inr full ↦
        let g = grow-bytes d b (length b.bytes + length buf) in
        let k = grow-le d b (length b.bytes + length buf) can in
        rw (less, full)
          (record {
            same = g;
            room = rw g k;
            front = take-all (length buf) buf (omega arith);
            some_part = h;
          })
  ]
]

-- The data that a response holds is a slice.
abbrev pub HoldsSlice : Response → Type 0
HoldsSlice r = length (bytes_of r.contents) ≤ capacity_of r.contents

current_buffer-IsSlice :
    (d : Decoder) (m : ResponseMeta) (o : Option Buffer)
    → length (bytes_of o) ≤ capacity_of o
    → IsSlice (current_buffer d m o) × ((current_buffer d m o).bytes ≡ bytes_of o)
unfolding first_buffer
current_buffer-IsSlice d m none v = (omega arith, refl)
current_buffer-IsSlice d m (some b) v = (v, refl)

ensure_data-Fits :
    (d : Decoder) (r : Response) (buf : Bytes)
    → CanGrow d
    → HoldsSlice r
    → 1 ≤ length buf
    → Fits
        (current_buffer d r.metadata r.contents)
        (ensure_data d r buf).0
        buf
        (ensure_data d r buf).1
      × ((current_buffer d r.metadata r.contents).bytes ≡ bytes_of r.contents)
unfolding ensure_data
ensure_data-Fits d r buf can v h =
    let (slice, held) = current_buffer-IsSlice d r.metadata r.contents v in
    (fit-Fits d (current_buffer d r.metadata r.contents) buf can slice h, held)

-- The bytes that are taken back so that the lines around the body can be read: "=", "=y" or ".\r\n".
abbrev pub taken_back : State → End → ℕ
taken_back crlfeq End.none = 1
taken_back s End.none = 0
taken_back s control = 2
taken_back s article = 3

-- What a call of `decodeYenc` comes to: it decodes a part at the front of `buf` that is not empty, puts
-- the bytes behind those that the response holds, and counts those that were read, less the ones that
-- it takes back.
pub record Extends (r : Response) (buf : Bytes) (n : ℤ) (q : Response) : Type 0 where
  pub part : Bytes
  pub decoded : Decoded
  pub front : take (length part) buf ≡ part
  pub some_part : 1 ≤ length part
  pub decodes : decode_generic (length part) part r.state ≡ ret decoded
  pub extended : bytes_of q.contents ≡ bytes_of r.contents ++ decoded.decoded
  pub slice : HoldsSlice q
  pub inside : decoded.n_src ≤ length part
  pub counts : n ≡ pos decoded.n_src -ℤ pos (taken_back decoded.state decoded.ended)

take_decoded-Extends :
    (r : Response) (b : Buffer) (d : Decoded)
    → length b.bytes + length d.decoded ≤ b.capacity
    → b.bytes ≡ bytes_of r.contents
    → (bytes_of (take_decoded r b d).contents ≡ bytes_of r.contents ++ d.decoded)
      × HoldsSlice (take_decoded r b d)
unfolding take_decoded
take_decoded-Extends r b d room same = elim (Bool-cases (ltb 0 (length d.decoded))) [
  | inl more ↦
      let l = length-append b.bytes d.decoded in
      rw more (ap (λ x. x ++ d.decoded) same, omega (arith, room, l))
  | inr nothing ↦
      let e = length-zero d.decoded (ltb-le 0 _ nothing) in
      rw (nothing, e, append-nil) (same, omega (arith, room))
]

at_end-contents :
    (r : Response) (n : ℕ) (s : State) (e : End) → (at_end r n s e).1.contents ≡ r.contents
unfolding at_end
at_end-contents r n s e = ground arith

at_end-counts :
    (r : Response) (n : ℕ) (s : State) (e : End)
    → (at_end r n s e).0 ≡ pos n -ℤ pos (taken_back s e)
unfolding at_end ◌-ℤ◌
at_end-counts r n s control = refl
at_end-counts r n s article = refl
at_end-counts r n s End.none = ground arith

-- Where `append` gives what it is asked for, `decodeYenc` returns on one byte or more, whatever the
-- capacity that was left: it decodes a part of the bytes that is not empty, from the front, and the
-- response holds the bytes that it held with the decoded ones behind them, in a slice that is large
-- enough. The count that it returns is that of the bytes that `decodeGeneric` read of the part, less
-- one where that stops behind "\r\n=", two behind "\r\n=y" and three at the end of the article.
pub decode_yenc-Extends :
    (d : Decoder) (r : Response) (buf : Bytes)
    → CanGrow d
    → HoldsSlice r
    → 1 ≤ length buf
    → (n : ℤ) × (q : Response) × (decode_yenc d r buf ≡ ret (n, q)) × Extends r buf n q
unfolding decode_yenc
decode_yenc-Extends d r [] can v h = absurd (omega (arith, h))
decode_yenc-Extends d r (c ∷ cs) can v h =
    let (f, held) = ensure_data-Fits d r (c ∷ cs) can v h in
    let b = (ensure_data d r (c ∷ cs)).0 in
    let part = (ensure_data d r (c ∷ cs)).1 in
    let (dec, decodes, w) = decode_generic-Refines (length part) part r.state (omega arith) in
    let fits : ltb b.capacity (length b.bytes + length part) ≡ false = le-ltb _ _ f.room in
    let (extended, slice) =
      take_decoded-Extends r b dec (omega (arith, w.fits, w.inside, f.room)) (f.same ∙ held) in
    let q = at_end (take_decoded r b dec) dec.n_src dec.state dec.ended in
    let same = at_end-contents (take_decoded r b dec) dec.n_src dec.state dec.ended in
    (
      q.0,
      q.1,
      rw (fits, decodes) refl,
      record {
        part = part;
        decoded = dec;
        front = f.front;
        some_part = f.some_part;
        decodes = decodes;
        extended = ap bytes_of same ∙ extended;
        slice = rw same slice;
        inside = w.inside;
        counts = (at_end-counts (take_decoded r b dec) dec.n_src dec.state dec.ended);
      },
    )

ensure_data_room :
    (d : Decoder) (r : Response) (b : Buffer) (buf : Bytes)
    → r.contents ≡ some b
    → length b.bytes + length buf ≤ b.capacity
    → ensure_data d r buf ≡ (b, buf)
unfolding ensure_data fit
ensure_data_room d r b buf held room =
    let e : leb (length buf) (b.capacity - length b.bytes) ≡ true = ground arith in
    rw (held, e) refl

-- With room for all of the bytes, they are decoded at once.
pub decode_yenc_room :
    (d : Decoder) (r : Response) (b : Buffer) (c : ℕ) (cs : Bytes) (dec : Decoded)
    → r.contents ≡ some b
    → length b.bytes + length (c ∷ cs) ≤ b.capacity
    → decode_generic (length (c ∷ cs)) (c ∷ cs) r.state ≡ ret dec
    → decode_yenc d r (c ∷ cs) ≡ ret (at_end (take_decoded r b dec) dec.n_src dec.state dec.ended)
unfolding decode_yenc
decode_yenc_room d r b c cs dec held room decodes =
    let e : ensure_data d r (c ∷ cs) ≡ (b, c ∷ cs) = ensure_data_room d r b (c ∷ cs) held room in
    let fits : ltb b.capacity (length b.bytes + length (c ∷ cs)) ≡ false = le-ltb _ _ room in
    rw (e, fits, decodes) refl

pub at_end-article :
    (r : Response) (n : ℕ) (s : State)
    → at_end r n s article ≡ (pos n -ℤ pos 3, record r { body = false })
unfolding at_end
at_end-article r n s = ground arith
