-- ===== src/Parsebat/Flat/Header.antt =====
-- The system call refines the parser on the whole text: how the reads cut the text makes no
-- difference.
use embedded_pg.Base.{
  ℕ, suc, ◌≤◌, ◌<◌, ◌≡◌, refl, sym, ap, ◌∙◌, true, false, Option, none, some, List, [], ◌∷◌, length,
  length-append, arith, Option-cases, inl, inr,
}
use embedded_pg.Base.Outcome.{ok}
use embedded_pg.Cstring.{Str}
use embedded_pg.Parsebat.Reader.{
  Read, chunk, failure, Reader, parsebat_reset, fd_ok, getchar_from_fd, skip_one_line, skip_line,
}
use embedded_pg.Parsebat.Parse.{parse_rows, parsebat_on, bytes_of, parsebat}
use embedded_pg.Parsebat.Flat.{
  Ending, at_eof, at_error, stream, flat_line, flat_char, end_code, flat_next, flat_rows,
  parse_text,
}
use embedded_pg.Parsebat.Flat.Buffer.{Running, Ended}
use embedded_pg.Parsebat.Flat.Simulation.{
  Skips, skip_one_line-Skips, getchar-Skips, fd_ok-Running, fd_ok-Ended, Sees-mono,
}
use embedded_pg.Parsebat.Flat.{◌>>=◌}
use embedded_pg.Parsebat.Flat.Simulation.{skip_line_one}
use embedded_pg.Parsebat.Flat.Refine.{
  fd_err-Running, fd_eof-Running, fd_eof-Ended, fd_err-Ended, parse_rows-eq,
}

-- The fuel is more than the bytes that are to come.
length-stream : (fd : List Read) → length (stream fd).0 ≤ bytes_of fd
unfolding stream bytes_of
length-stream [] = omega arith
length-stream (chunk [] ∷ fd) = omega arith
length-stream (chunk (c ∷ s) ∷ fd) =
    omega (arith, length-append (c ∷ s) (stream fd).0, length-stream fd)
length-stream (failure e ∷ fd) = omega arith

-- After the reset nothing of the buffer counts.
reset-Running : (r : Reader) → Running (stream r.fd).1 (stream r.fd).0 (parsebat_reset r)
unfolding parsebat_reset
reset-Running r = record {
  is_ok = refl;
  size = 0;
  size_is = refl;
  in_buf = omega arith;
  in_size = omega arith;
  bytes = refl;
  ending = refl;
}

-- The second line, the first having been passed over, and the byte behind it.
module _ (maxdev fuel : ℕ) (r : Reader) where
  header-cut :
      (E : Ending) (r1 : Reader)
      → skip_line fuel 2 (parsebat_reset r) ≡ ok r1
      → Ended E r1
      → parsebat_on fuel maxdev r ≡ ok (record { ndev = end_code 0 E; macs = [] })
  unfolding parsebat_on
  header-cut at_eof r1 e h = ground (arith, e, fd_ok-Ended at_eof r1 h, fd_eof-Ended r1 h)
  header-cut (at_error x) r1 e h =
      ground (arith, e, fd_ok-Ended (at_error x) r1 h, fd_err-Ended x r1 h, h.1)

  module _ (E : Ending) (s : Str) (r1 : Reader) (e : skip_line fuel 2 (parsebat_reset r) ≡ ok r1)
      (run : Running E s r1) (ch : Option ℕ) (r2 : Reader)
      (f : getchar_from_fd r1 ≡ ok (ch, r2)) where
    no_rows :
        Ended E r2 → parsebat_on fuel maxdev r ≡ ok (record { ndev = end_code 0 E; macs = [] })
    no_rows h = go E h (fd_ok-Running E s r1 run)
      where
        go :
            (E' : Ending)
            → Ended E' r2
            → fd_ok r1 ≡ true
            → parsebat_on fuel maxdev r ≡ ok (record { ndev = end_code 0 E'; macs = [] })
        go at_eof h g = unfold parsebat_on in ground (arith, e, f, g, fd_eof-Ended r2 h)
        go (at_error x) h g =
            unfold parsebat_on in ground (arith, e, f, g, fd_err-Ended x r2 h, h.1)

    rows : (t : Str) → Running E t r2 → parsebat_on fuel maxdev r ≡ parse_rows fuel maxdev 0 r2
    unfolding parsebat_on
    rows t k =
        ground
          (arith, e, f, fd_ok-Running E s r1 run, fd_err-Running E t r2 k, fd_eof-Running E t r2 k)

module _ (fuel : ℕ) (r r1 : Reader) (e : skip_one_line fuel r ≡ ok r1) where
  line_cut : fd_ok r1 ≡ false → skip_line fuel 2 r ≡ ok r1
  unfolding skip_line
  line_cut g = ground (arith, e)

  line_next : fd_ok r1 ≡ true → skip_line fuel 2 r ≡ skip_line fuel 1 r1
  unfolding skip_line
  line_next g = ground (arith, e)

two_lines :
    (E : Ending) (fuel : ℕ) (s : Str) (r : Reader)
    → length s < fuel
    → Running E s r
    → Skips E (length s) (flat_line s >>= flat_line) (skip_line fuel 2 r)
two_lines E fuel s r h run =
    let (r1, e, sees) = skip_one_line-Skips E fuel s r h run in
    elim (Option-cases (flat_line s)) [
      | inl z ↦
          let k : Ended E r1 = rw z at sees in
          rw z (r1, line_cut fuel r r1 e (fd_ok-Ended E r1 k), k)
      | inr (t, z) ↦
          let k : Running E t r1 × (length t ≤ length s) = rw z at sees in
          let (r2, f, after) = skip_line_one E fuel t r1 (omega arith) k.0 in
          rw z (
            r2,
            line_next fuel r r1 e (fd_ok-Running E t r1 k.0) ∙ f,
            Sees-mono E (length t) (length s) (flat_line t) r2 k.1 after,
          )
    ]

-- The text parser by the text behind two lines.
parse_text-cut :
    (maxdev : ℕ) (E : Ending) (s : Str)
    → (flat_line s >>= flat_line) ≡ none
    → parse_text maxdev (s, E) ≡ record { ndev = end_code 0 E; macs = [] }
unfolding parse_text flat_next
parse_text-cut maxdev E s z = ground arith

parse_text-end :
    (maxdev : ℕ) (E : Ending) (s t : Str)
    → (flat_line s >>= flat_line) ≡ some t
    → flat_char t ≡ none
    → parse_text maxdev (s, E) ≡ record { ndev = end_code 0 E; macs = [] }
unfolding parse_text flat_next
parse_text-end maxdev E s t z y = ground arith

parse_text-rows :
    (maxdev : ℕ) (E : Ending) (s t t' : Str)
    → (flat_line s >>= flat_line) ≡ some t
    → flat_char t ≡ some t'
    → parse_text maxdev (s, E) ≡ flat_rows E maxdev 0 t'
unfolding parse_text flat_next
parse_text-rows maxdev E s t t' z y = ground arith

parsebat_on-eq :
    (maxdev fuel : ℕ) (r : Reader) (E : Ending) (s : Str)
    → length s < fuel
    → Running E s (parsebat_reset r)
    → parsebat_on fuel maxdev r ≡ ok (parse_text maxdev (s, E))
parsebat_on-eq maxdev fuel r E s h run =
    let (r1, e, sees) = two_lines E fuel s (parsebat_reset r) h run in
    elim (Option-cases (flat_line s >>= flat_line)) [
      | inl z ↦
          let k : Ended E r1 = rw z at sees in
          header-cut maxdev fuel r E r1 e k ∙ ap ok (sym (parse_text-cut maxdev E s z))
      | inr (t, z) ↦
          let k : Running E t r1 × (length t ≤ length s) = rw z at sees in
          let (ch, r2, f, after) = getchar-Skips E t r1 k.0 in
          elim (Option-cases (flat_char t)) [
            | inl y ↦
                let ends : Ended E r2 = rw y at after in
                no_rows maxdev fuel r E t r1 e k.0 ch r2 f ends
                ∙ ap ok (sym (parse_text-end maxdev E s t z y))
            | inr (t', y) ↦
                let on : Running E t' r2 × (length t' ≤ length t) = rw y at after in
                rows maxdev fuel r E t r1 e k.0 ch r2 f t' on.0
                ∙ parse_rows-eq E fuel maxdev 0 t' r2 (omega arith) on.0
                ∙ ap ok (sym (parse_text-rows maxdev E s t t' z y))
          ]
    ]

-- The system call always returns, whatever its buffer held before, and what it returns and the
-- addresses that it has stored are those that the parser of whole texts takes from the bytes that
-- the reads give together: how they are cut into reads makes no difference.
pub parsebat-eq-parse_text :
    (maxdev : ℕ) (r : Reader) → parsebat maxdev r ≡ ok (parse_text maxdev (stream r.fd))
unfolding parsebat
parsebat-eq-parse_text maxdev r =
    parsebat_on-eq maxdev (suc (bytes_of r.fd)) r (stream r.fd).1 (stream r.fd).0
      (omega (arith, length-stream r.fd)) (reset-Running r)
