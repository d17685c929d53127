-- ===== src/Simd/Decode/Parts.antt =====
-- A slice that is decoded in parts: how much of it is read, and what is left to say.
use rapidyenc.Base.{
  ℕ, ◌≤◌, ◌+◌, [], ◌∷◌, ◌++◌, ◌≡◌, refl, sym, ap, ◌∙◌, ◌≢◌, arith, Bytes, length, drop,
  length-append, length-drop, drop-append_le, drop-add, append_assoc,
}
use rapidyenc.Decoder.{State, crlf, End, control, article, Decoded}
use rapidyenc.Decoder.Automaton.{read}
use rapidyenc.Decoder.Simulation.{Left, resume, resume_as}
use rapidyenc.Decoder.Refine.{Refines}
use rapidyenc.Decoder.Progress.{behind, read_from, resume_as-append}
use rapidyenc.Simd.Decode.{behind_call}

-- The first `n` bytes of `src`, read from the state `s`, give `out` and the state `t`.
pub record Takes (s : State) (src : Bytes) (n : ℕ) (out : Bytes) (t : State) : Type 0 where
  pub inside : n ≤ length src
  pub fits : length out ≤ n
  pub reads : (more : Bytes) → behind out (read [] t (drop n src ++ more)) ≡ read [] s (src ++ more)

pub takes_nothing : (s : State) (src : Bytes) → Takes s src 0 [] s
takes_nothing s src = record { inside = omega arith; fits = omega arith; reads = λ more. refl }

-- One part behind another.
pub takes_both :
    {s t u : State} {src : Bytes} {m n : ℕ} {out next : Bytes}
    → Takes s src m out t
    → Takes t (drop m src) n next u
    → Takes s src (m + n) (out ++ next) u
takes_both {src} {m} {n} {out} {next} a b = record {
  inside = omega (arith, a.inside, b.inside, length-drop m src);
  fits = omega (arith, a.fits, b.fits, length-append out next);
  reads =
      λ more. rw (drop-add m n src, append_assoc) (ap (behind out) (b.reads more) ∙ a.reads more);
}

-- The last call behind the parts.
pub last_part :
    {s t : State} {src : Bytes} {n : ℕ} {out : Bytes} (d : Decoded)
    → Takes s src n out t
    → Refines t (drop n src) d
    → Refines s src (behind_call n out d)
last_part {src} {n} {out} d a w = record {
  inside = omega (arith, a.inside, w.inside, length-drop n src);
  fits = omega (arith, a.fits, w.fits, length-append out d.decoded);
  left = rw (drop-add n d.n_src src) w.left;
  resumes = λ more. rw (drop-add n d.n_src src) (
      resume_as-append d.ended out d.decoded d.state _
      ∙ ap (behind out) (w.resumes more)
      ∙ a.reads more);
}

module _ {s : State} (a b : Bytes) (d : Decoded) (w : Refines s a d) where
  drop-more : (more : Bytes) → drop d.n_src (a ++ b) ++ more ≡ drop d.n_src a ++ (b ++ more)
  drop-more more = rw (drop-append_le d.n_src a b w.inside) (append_assoc (drop d.n_src a) b more)

  resumes_more :
      (more : Bytes) → resume d (drop d.n_src (a ++ b) ++ more) ≡ read [] s ((a ++ b) ++ more)
  resumes_more more = rw (drop-more more, append_assoc a b more) (w.resumes (b ++ more))

  -- A call on the first bytes of a slice that comes to no end is a part of it.
  pub first_part : d.ended ≡ End.none → Takes s (a ++ b) d.n_src d.decoded d.state
  first_part e = record {
    inside = omega (arith, w.inside, length-append a b);
    fits = w.fits;
    reads = λ more.
        sym (read_from d.decoded d.state _)
        ∙ ap (λ x. resume_as x d.decoded d.state (drop d.n_src (a ++ b) ++ more)) (sym e)
        ∙ resumes_more more;
  }

  ended-Left : (e : End) (t : State) (r : Bytes) → e ≢ End.none → Left e t r
  ended-Left control t r h = tt
  ended-Left article t r h = tt
  ended-Left End.none t r h = absurd (h refl)

  -- One that comes to an end says all.
  pub all_said : d.ended ≢ End.none → Refines s (a ++ b) d
  all_said e = record {
    inside = omega (arith, w.inside, length-append a b);
    fits = w.fits;
    left = ended-Left d.ended d.state _ e;
    resumes = resumes_more;
  }

  Left-length : (e : End) (t : State) (r : Bytes) → e ≡ End.none → Left e t r → length r ≤ 2
  Left-length control t r e l = ground arith
  Left-length article t r e l = ground arith
  Left-length End.none t [] e l = omega arith
  Left-length End.none crlf (x ∷ y ∷ []) e l = omega arith
  Left-length End.none t (x ∷ r) e l = elim l [ ]

  -- At most two bytes are left unread.
  pub first_left : d.ended ≡ End.none → length a ≤ d.n_src + 2
  first_left e =
      omega (arith, Left-length d.ended d.state (drop d.n_src a) e w.left, length-drop d.n_src a)
