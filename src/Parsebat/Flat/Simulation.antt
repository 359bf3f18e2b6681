-- ===== src/Parsebat/Flat/Simulation.antt =====
-- The buffered parser comes to what the parser on the whole text comes to.
use embedded_pg.Base.{
  ℕ, zero, suc, ◌+◌, ◌-◌, ◌≤◌, ◌<◌, ◌≡◌, refl, ap, ◌∙◌, Bool, true, false, not, Option, none, some,
  [], ◌∷◌, length, arith, ◌==◌, Bool-cases, Option-cases, inl, inr,
}
use embedded_pg.Base.Outcome.{Outcome, ok}
use embedded_pg.Cstring.{Str}
use embedded_pg.Parsebat.Reader.{
  Reader, fd_ok, getchar_from_fd, isspace, skip_one_line, skip_line, skip_while,
}
use embedded_pg.Parsebat.Parse.{
  mac_len, row_error, Step, go_on, broken, read_mac, checked, parse_mac,
}
use embedded_pg.Parsebat.Flat.{
  ◌>>=◌, Ending, at_eof, at_error, flat_line, flat_char, flat_skip, flat_mac, flat_row, row_code,
  flat_next,
}
use embedded_pg.Parsebat.Flat.Buffer.{Running, Ended, advance, getchar-Gets}

-- A reader with at most `bound` bytes left that stands where the text does.
abbrev pub Sees : Ending → ℕ → Option Str → Reader → Type 0
Sees E bound none r = Ended E r
Sees E bound (some s) r = Running E s r × (length s ≤ bound)

-- A skip that comes to such a reader.
abbrev pub Skips : Ending → ℕ → Option Str → Outcome Reader → Type 0
Skips E bound v o = (r : Reader) × (o ≡ ok r) × Sees E bound v r

pub Sees-mono :
    (E : Ending) (a b : ℕ) (v : Option Str) (r : Reader) → a ≤ b → Sees E a v r → Sees E b v r
Sees-mono E a b none r h k = k
Sees-mono E a b (some s) r h k = (k.0, omega arith)

put_back : (q : Reader) → record q { offset = q.offset + 1 - 1 } ≡ q
put_back q =
    let back : q.offset + 1 - 1 ≡ q.offset = omega arith in ap (λ o. record q { offset = o }) back

module _ (fuel : ℕ) (r q : Reader) (c : ℕ) (e : getchar_from_fd r ≡ ok (some c, q)) where
  at_newline : (c == b'\n') ≡ true → skip_one_line (suc fuel) r ≡ ok q
  unfolding skip_one_line
  at_newline w = ground arith

  in_line : (c == b'\n') ≡ false → skip_one_line (suc fuel) r ≡ skip_one_line fuel q
  unfolding skip_one_line
  in_line w = ground arith

skip_while-Skips :
    (E : Ending) (wanted : ℕ → Bool) (fuel : ℕ) (s : Str) (r : Reader)
    → length s < fuel
    → Running E s r
    → Skips E (length s) (flat_skip wanted s) (skip_while wanted fuel r)
unfolding skip_while flat_skip
skip_while-Skips E wanted zero s r h run = absurd (omega arith)
skip_while-Skips E wanted (suc fuel) [] r h run =
    let (r', e, k) = getchar-Gets E [] r run in (r', rw e, k)
skip_while-Skips E wanted (suc fuel) (c ∷ s) r h run =
    let (q, e, before, after) = getchar-Gets E (c ∷ s) r run in
    elim (Bool-cases (wanted c)) [
      | inl w ↦
          let (r', f, k) = skip_while-Skips E wanted fuel s (advance q) (omega arith) after in
          rw w (r', rw e (rw w f), Sees-mono E (length s) (suc (length s)) _ r' (omega arith) k)
      | inr w ↦ rw w (q, rw e (rw w (rw (put_back q))), (before, omega arith))
    ]

pub skip_one_line-Skips :
    (E : Ending) (fuel : ℕ) (s : Str) (r : Reader)
    → length s < fuel
    → Running E s r
    → Skips E (length s) (flat_line s) (skip_one_line fuel r)
unfolding skip_one_line flat_line
skip_one_line-Skips E zero s r h run = absurd (omega arith)
skip_one_line-Skips E (suc fuel) [] r h run =
    let (r', e, k) = getchar-Gets E [] r run in (r', rw e, k)
skip_one_line-Skips E (suc fuel) (c ∷ s) r h run =
    let (q, e, before, after) = getchar-Gets E (c ∷ s) r run in
    elim (Bool-cases (c == b'\n')) [
      | inl w ↦ rw w (advance q, at_newline fuel r (advance q) c e w, (after, omega arith))
      | inr w ↦
          let (r', f, k) = skip_one_line-Skips E fuel s (advance q) (omega arith) after in
          rw w (
            r',
            in_line fuel r (advance q) c e w ∙ f,
            Sees-mono E (length s) (suc (length s)) _ r' (omega arith) k,
          )
    ]

pub fd_ok-Running : (E : Ending) (s : Str) (r : Reader) → Running E s r → fd_ok r ≡ true
fd_ok-Running E s r run = rw run.is_ok

pub fd_ok-Ended : (E : Ending) (r : Reader) → Ended E r → fd_ok r ≡ false
fd_ok-Ended at_eof r h = rw h
fd_ok-Ended (at_error e) r h = rw h.0

-- `skip_line` of one line, and of two.
pub skip_line_one :
    (E : Ending) (fuel : ℕ) (s : Str) (r : Reader)
    → length s < fuel
    → Running E s r
    → Skips E (length s) (flat_line s) (skip_line fuel 1 r)
unfolding skip_line
skip_line_one E fuel s r h run =
    let (r', e, k) = skip_one_line-Skips E fuel s r h run in (r', ground (arith, e), k)

-- The row cannot go on exactly where the text has ended.
row_error-Running : (E : Ending) (s : Str) (r : Reader) → Running E s r → row_error r ≡ none
unfolding row_error
row_error-Running E s r run = rw run.is_ok

row_error-Ended : (E : Ending) (r : Reader) → Ended E r → row_error r ≡ some (row_code E)
unfolding row_error
row_error-Ended at_eof r h = rw h
row_error-Ended (at_error e) r h = rw h.0 (rw h.1)

-- A step of a row that comes to what the text gives.
abbrev pub Steps : Ending → ℕ → Option (Str × Str) → Outcome (Step Str) → Type 0
Steps E bound none o = o ≡ ok (broken (row_code E))
Steps E bound (some (mac, s)) o =
    (r : Reader) × (o ≡ ok (go_on mac r)) × Running E s r × (length s ≤ bound)

Steps-mono :
    (E : Ending) (a b : ℕ) (v : Option (Str × Str)) (o : Outcome (Step Str))
    → a ≤ b
    → Steps E a v o
    → Steps E b v o
Steps-mono E a b none o h k = k
Steps-mono E a b (some (mac, s)) o h (r, e, run, le) = (r, e, run, omega arith)

read_mac-Steps :
    (E : Ending) (n : ℕ) (s : Str) (r : Reader)
    → Running E s r
    → Steps E (length s) (flat_mac n s) (read_mac n r)
unfolding read_mac flat_mac
read_mac-Steps E zero s r run = (r, refl, run, omega arith)
read_mac-Steps E (suc n) [] r run =
    let (r', e, k) = getchar-Gets E [] r run in ground (arith, e, row_error-Ended E r' k)
read_mac-Steps E (suc n) (c ∷ s) r run =
    let (q, e, before, after) = getchar-Gets E (c ∷ s) r run in
    let no_error = row_error-Running E s (advance q) after in
    let ih = read_mac-Steps E n s (advance q) after in
    elim (Option-cases (flat_mac n s)) [
      | inl z ↦
          let g : read_mac n (advance q) ≡ ok (broken (row_code E)) = rw z at ih in
          rw z (ground (arith, e, no_error, g))
      | inr ((mac, t), z) ↦
          let g : Steps E (length s) (some (mac, t)) (read_mac n (advance q)) = rw z at ih in
          let (r', f, on, le) = g in rw z (r', ground (arith, e, no_error, f), on, omega arith)
    ]

-- A skip with its checks: where it sees the end the row is broken, otherwise the row goes on.
checked-end :
    (E : Ending) (r : Reader) (skip : Outcome Reader) (next : Reader → Outcome (Step Str))
    → skip ≡ ok r
    → Ended E r
    → checked skip next ≡ ok (broken (row_code E))
unfolding checked
checked-end E r skip next e k = ground (arith, row_error-Ended E r k)

checked-next :
    (E : Ending) (s : Str) (r : Reader) (skip : Outcome Reader) (next : Reader → Outcome (Step Str))
    → skip ≡ ok r
    → Running E s r
    → checked skip next ≡ next r
unfolding checked
checked-next E s r skip next e k = ground (arith, row_error-Running E s r k)

checked-Steps :
    (E : Ending) (wanted : ℕ → Bool) (fuel : ℕ) (s : Str) (r : Reader)
    (next : Reader → Outcome (Step Str)) (flat_rest : Str → Option (Str × Str))
    → length s < fuel
    → Running E s r
    → ((t : Str) (q : Reader)
        → length t ≤ length s
        → Running E t q
        → Steps E (length t) (flat_rest t) (next q))
    → Steps E
        (length s)
        (flat_skip wanted s >>= flat_rest)
        (checked (skip_while wanted fuel r) next)
checked-Steps E wanted fuel s r next flat_rest h run rest =
    let (q, e, sees) = skip_while-Skips E wanted fuel s r h run in
    elim (Option-cases (flat_skip wanted s)) [
      | inl z ↦ let k : Ended E q = rw z at sees in rw z (checked-end E q _ next e k)
      | inr (t, z) ↦
          let k : Running E t q × (length t ≤ length s) = rw z at sees in
          rw z (
            rw (checked-next E t q _ next e k.0)
              (Steps-mono E (length t) (length s) (flat_rest t) (next q) k.1 (rest t q k.1 k.0)))
    ]

pub parse_mac-Steps :
    (E : Ending) (fuel : ℕ) (s : Str) (r : Reader)
    → length s < fuel
    → Running E s r
    → Steps E (length s) (flat_row s) (parse_mac fuel r)
unfolding parse_mac flat_row
parse_mac-Steps E fuel s r h run = checked-Steps E isspace fuel s r _ _ h run λ t q le k.
    checked-Steps E (λ ch. not (isspace ch)) fuel t q _ _ (omega arith) k
      λ t' q' le' k'.
        checked-Steps E isspace fuel t' q' _ _ (omega arith) k'
          λ t'' q'' le'' k''. read_mac-Steps E mac_len t'' q'' k''

-- The byte behind a row.
pub getchar-Skips :
    (E : Ending) (s : Str) (r : Reader)
    → Running E s r
    → (ch : Option ℕ) × (q : Reader) × (getchar_from_fd r ≡ ok (ch, q))
      × Sees E (length s) (flat_char s) q
getchar-Skips E [] r run = let (q, e, k) = getchar-Gets E [] r run in (none, q, e, k)
getchar-Skips E (c ∷ s) r run =
    let (q, e, before, after) = getchar-Gets E (c ∷ s) r run in
    (some c, advance q, e, (after, omega arith))

-- From the end of a row's address to the next row.
pub next_row :
    (E : Ending) (fuel : ℕ) (s : Str) (r : Reader)
    → length s < fuel
    → Running E s r
    → (r1 : Reader) × (ch : Option ℕ) × (q : Reader) × (skip_line fuel 1 r ≡ ok r1)
      × (getchar_from_fd r1 ≡ ok (ch, q))
      × Sees E (length s) (flat_next s) q
unfolding flat_next getchar_from_fd
next_row E fuel s r h run =
    let (r1, e, sees) = skip_line_one E fuel s r h run in
    elim (Option-cases (flat_line s)) [
      | inl z ↦
          let k : Ended E r1 = rw z at sees in (r1, none, r1, e, rw (fd_ok-Ended E r1 k), rw z k)
      | inr (t, z) ↦
          let k : Running E t r1 × (length t ≤ length s) = rw z at sees in
          let (ch, q, f, after) = getchar-Skips E t r1 k.0 in
          (r1, ch, q, e, f, rw z (Sees-mono E (length t) (length s) (flat_char t) q k.1 after))
    ]
