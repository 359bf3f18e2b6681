-- ===== src/Parsebat/Flat/Refine.antt =====
-- The rows: the buffered loop comes to what the loop on the whole text comes to.
use embedded_pg.Base.{
  ℕ, zero, suc, ◌+◌, ◌≤◌, ◌<◌, ◌≡◌, refl, sym, ap, ◌∙◌, true, false, Option, none, some, [], ◌∷◌,
  length, arith, Option-cases, inl, inr,
}
use embedded_pg.Base.Int.{ℤ}
use embedded_pg.Base.Outcome.{ok}
use embedded_pg.Cstring.{Str}
use embedded_pg.Parsebat.Reader.{Reader, fd_err, fd_eof, getchar_from_fd, skip_line}
use embedded_pg.Parsebat.Parse.{go_on, broken, parse_mac, Parsed, parse_rows}
use embedded_pg.Parsebat.Flat.{
  Ending, at_eof, at_error, flat_row, row_code, end_code, flat_next, flat_rows,
}
use embedded_pg.Parsebat.Flat.Buffer.{Running, Ended}
use embedded_pg.Parsebat.Flat.Simulation.{Steps, parse_mac-Steps, next_row}

pub fd_err-Running : (E : Ending) (s : Str) (r : Reader) → Running E s r → fd_err r ≡ false
fd_err-Running E s r run = rw run.is_ok

pub fd_eof-Running : (E : Ending) (s : Str) (r : Reader) → Running E s r → fd_eof r ≡ false
fd_eof-Running E s r run = rw run.is_ok

pub fd_eof-Ended : (r : Reader) → Ended at_eof r → (fd_err r ≡ false) × (fd_eof r ≡ true)
fd_eof-Ended r h = (rw h, rw h)

pub fd_err-Ended : (e : ℕ) (r : Reader) → Ended (at_error e) r → fd_err r ≡ true
fd_err-Ended e r h = rw h.0

module _ (fuel left ndev : ℕ) (r : Reader) where
  rows-broken :
      (e : ℤ)
      → parse_mac fuel r ≡ ok (broken e)
      → parse_rows fuel (suc left) ndev r ≡ ok (record { ndev = e; macs = [] })
  unfolding parse_rows
  rows-broken e h = rw h

  module _ (mac : Str) (r1 r2 r3 : Reader) (ch : Option ℕ)
      (row : parse_mac fuel r ≡ ok (go_on mac r1)) (line : skip_line fuel 1 r1 ≡ ok r2)
      (char : getchar_from_fd r2 ≡ ok (ch, r3)) where
    rows-end :
        (E : Ending)
        → Ended E r3
        → parse_rows fuel (suc left) ndev r
          ≡ ok (record { ndev = end_code (ndev + 1) E; macs = mac ∷ [] })
    unfolding parse_rows
    rows-end at_eof h = ground (arith, row, line, char, fd_eof-Ended r3 h)
    rows-end (at_error e) h = ground (arith, row, line, char, fd_err-Ended e r3 h, h.1)

    rows-more :
        (E : Ending) (s : Str) (p : Parsed)
        → Running E s r3
        → parse_rows fuel left (ndev + 1) r3 ≡ ok p
        → parse_rows fuel (suc left) ndev r ≡ ok (record p { macs = mac ∷ p.macs })
    unfolding parse_rows
    rows-more E s p run h =
        ground (arith, row, line, char, fd_err-Running E s r3 run, fd_eof-Running E s r3 run, h)

module _ (E : Ending) (left ndev : ℕ) (s : Str) where
  flat_rows-broken :
      flat_row s ≡ none → flat_rows E (suc left) ndev s ≡ record { ndev = row_code E; macs = [] }
  unfolding flat_rows
  flat_rows-broken z = ground arith

  module _ (mac t : Str) (z : flat_row s ≡ some (mac, t)) where
    flat_rows-end :
        flat_next t ≡ none
        → flat_rows E (suc left) ndev s ≡ record { ndev = end_code (ndev + 1) E; macs = mac ∷ [] }
    unfolding flat_rows
    flat_rows-end y = ground arith

    flat_rows-more :
        (t' : Str)
        → flat_next t ≡ some t'
        → flat_rows E (suc left) ndev s
          ≡ (let p = flat_rows E left (ndev + 1) t' in record p { macs = mac ∷ p.macs })
    unfolding flat_rows
    flat_rows-more t' y = ground arith

pub parse_rows-eq :
    (E : Ending) (fuel left ndev : ℕ) (s : Str) (r : Reader)
    → length s < fuel
    → Running E s r
    → parse_rows fuel left ndev r ≡ ok (flat_rows E left ndev s)
parse_rows-eq E fuel zero ndev s r h run = unfold parse_rows flat_rows in refl
parse_rows-eq E fuel (suc left) ndev s r h run =
    let row = parse_mac-Steps E fuel s r h run in
    elim (Option-cases (flat_row s)) [
      | inl z ↦
          let k : parse_mac fuel r ≡ ok (broken (row_code E)) = rw z at row in
          rows-broken fuel left ndev r (row_code E) k
          ∙ ap ok (sym (flat_rows-broken E left ndev s z))
      | inr ((mac, t), z) ↦
          let k : Steps E (length s) (some (mac, t)) (parse_mac fuel r) = rw z at row in
          let (r1, e1, run1, le1) = k in
          let (r2, ch, r3, e2, e3, sees) = next_row E fuel t r1 (omega arith) run1 in
          elim (Option-cases (flat_next t)) [
            | inl y ↦
                let ends : Ended E r3 = rw y at sees in
                rows-end fuel left ndev r mac r1 r2 r3 ch e1 e2 e3 E ends
                ∙ ap ok (sym (flat_rows-end E left ndev s mac t z y))
            | inr (t', y) ↦
                let on : Running E t' r3 × (length t' ≤ length t) = rw y at sees in
                rows-more fuel left ndev r mac r1 r2 r3 ch e1 e2 e3 E t'
                  (flat_rows E left (ndev + 1) t') on.0
                  (parse_rows-eq E fuel left (ndev + 1) t' r3 (omega arith) on.0)
                ∙ ap ok (sym (flat_rows-more E left ndev s mac t z t' y))
          ]
    ]
