-- ===== src/Bright/Rows.antt =====
-- The rows that `change_subject_bright` prints, and how they are read.
use embedded_pg.Base.{
  ℕ, zero, suc, ◌+◌, ◌-◌, ◌<◌, ◌≡◌, refl, sym, ap, ◌∙◌, true, false, some, List, [], ◌∷◌, ◌++◌,
  append_assoc, map, length, length-append, length-replicate, replicate, ◌==◌, All, All-append,
  All-imp, arith,
}
use embedded_pg.Base.Int.{pos}
use embedded_pg.Base.Outcome.{ok}
use embedded_pg.Cstring.{Str}
use embedded_pg.Stdio.{is_space}
use embedded_pg.Stdio.Laws.{IsField}
use embedded_pg.Stdio.Decimal.{print_int_3}
use embedded_pg.Stdio.Decimal.Laws.{
  scan_int-print_int_3, scan_int-space, length-print_int_3, print_int_3-AreDigits,
}
use embedded_pg.Stdio.Lines.{file_lines, fgets_lines, fgets_lines-line}
use embedded_pg.Schedule.Register.{scan_int, fits_int, is_digit}
use embedded_pg.Terminal.{scan_into}
use embedded_pg.Terminal.Ask.{scan_into-eq}
use embedded_pg.Bright.{Subject, scan_bright, scan_subject, pad_right, print_subject, join}

-- A row of the file: a name that fits in its array, and a brightness of three digits.
pub record Row : Type 0 where
  pub name : Str
  pub bright : ℕ

pub record IsRow (s : Row) : Type 0 where
  pub name_field : IsField 19 s.name
  pub three_digits : s.bright < 1000

abbrev pub subject_of : Row → Subject
subject_of s = record { name = s.name; bright = pos s.bright }

unfoldable pub row_text : Row → Str
row_text s = print_subject s.name (pos s.bright)

unfoldable pub rows_text : List Row → Str
rows_text [] = []
rows_text (s ∷ l) = row_text s ++ rows_text l

spaces-space : (k : ℕ) (r : Str) → replicate k b' ' ++ b' ' ∷ r ≡ b' ' ∷ (replicate k b' ' ++ r)
spaces-space zero r = refl
spaces-space (suc k) r = ap (◌∷◌ b' ') (spaces-space k r)

scan_int-spaces : (k : ℕ) (r : Str) → scan_int (replicate k b' ' ++ r) ≡ scan_int r
scan_int-spaces zero r = refl
scan_int-spaces (suc k) r = scan_int-space (replicate k b' ' ++ r) ∙ scan_int-spaces k r

module _ (s : Row) (f : IsRow s) where
  gap : ℕ
  gap = 20 - length s.name

  -- The row from behind the name on, with a rest.
  after_name : Str → Str
  after_name rest = b' ' ∷ (replicate gap b' ' ++ (print_int_3 (pos s.bright) ++ b'\n' ∷ rest))

  row_text-append : (rest : Str) → row_text s ++ rest ≡ s.name ++ after_name rest
  unfolding row_text print_subject pad_right after_name gap
  row_text-append rest = simp (append_assoc, spaces-space)

  scan_int-after_name :
      (rest : Str) → scan_int (after_name rest) ≡ (some (pos s.bright), b'\n' ∷ rest)
  unfolding after_name
  scan_int-after_name rest =
      let number : Str = print_int_3 (pos s.bright) ++ b'\n' ∷ rest in
      scan_int-space (replicate gap b' ' ++ number)
      ∙ scan_int-spaces gap number
      ∙ scan_int-print_int_3 s.bright (b'\n' ∷ rest) refl

  scan_into-row :
      (rest : Str) → scan_into 20 (row_text s ++ rest) ≡ ok (some (s.name, after_name rest))
  unfolding is_space after_name
  scan_into-row rest =
      ap (scan_into 20) (row_text-append rest)
      ∙ scan_into-eq 20 s.name (after_name rest) f.name_field refl

  scan_bright-row :
      (rest : Str) → scan_bright s.name (after_name rest) ≡ ok (some (subject_of s, b'\n' ∷ rest))
  unfolding scan_bright
  scan_bright-row rest =
      let small : fits_int (pos s.bright) ≡ true = ground (arith, f.three_digits) in
      rw (scan_int-after_name rest, scan_bright)
        (rw small (rw (ap (λ x. x.1) (scan_int-after_name rest)) refl))

  pub scan_subject-row :
      (rest : Str) → scan_subject (row_text s ++ rest) ≡ ok (some (subject_of s, b'\n' ∷ rest))
  unfolding scan_subject
  scan_subject-row rest = rw (scan_into-row rest) (rw (scan_bright-row rest) refl)

  pub length-row_text : length (row_text s) ≡ 25
  unfolding row_text print_subject pad_right
  length-row_text = omega (
    arith,
    f.name_field.fits,
    length-print_int_3 s.bright f.three_digits,
    length-append (s.name ++ replicate (20 - length s.name) b' ')
        (b' ' ∷ (print_int_3 (pos s.bright) ++ b'\n' ∷ [])),
    length-append s.name (replicate (20 - length s.name) b' '),
    length-replicate {A = ℕ} (20 - length s.name) b' ',
    length-append (print_int_3 (pos s.bright)) (b'\n' ∷ []),
  )

  -- The row without its newline.
  row_line : Str
  row_line = pad_right 20 s.name ++ b' ' ∷ print_int_3 (pos s.bright)

  row_text-line : row_text s ≡ row_line ++ b'\n' ∷ []
  unfolding row_text print_subject row_line
  row_text-line = simp append_assoc

  OneLine : Str → Type 0
  OneLine = All (λ c. (c == b'\n') ≡ false)

  spaces-OneLine : (k : ℕ) → OneLine (replicate k b' ')
  unfolding OneLine
  spaces-OneLine zero = tt
  spaces-OneLine (suc k) = (refl, spaces-OneLine k)

  row_line-OneLine : OneLine row_line
  unfolding OneLine row_line pad_right is_space
  row_line-OneLine =
      All-append (λ c. (c == b'\n') ≡ false) (pad_right 20 s.name)
        (b' ' ∷ print_int_3 (pos s.bright))
        (All-append (λ c. (c == b'\n') ≡ false) s.name (replicate (20 - length s.name) b' ')
          (All-imp (λ c. is_space c ≡ false) (λ c. (c == b'\n') ≡ false) s.name
            (λ c h. ground (arith, h)) f.name_field.no_space)
          (spaces-OneLine (20 - length s.name)))
        (
          refl,
          All-imp (λ c. is_digit c ≡ true) (λ c. (c == b'\n') ≡ false) (print_int_3 (pos s.bright))
              (λ c h. ground (arith, h)) (print_int_3-AreDigits s.bright),
        )

  fgets_lines-row :
      (rest : Str)
      → fgets_lines 1024 1024 (row_text s ++ rest) ≡ row_text s ∷ fgets_lines 1024 1024 rest
  unfolding OneLine
  fgets_lines-row rest =
      let short : length row_line + 1 ≡ 25 =
        sym (length-append row_line (b'\n' ∷ []))
        ∙ ap length (sym row_text-line)
        ∙ length-row_text in
      ap (fgets_lines 1024 1024)
        (ap (λ x. x ++ rest) row_text-line ∙ append_assoc row_line (b'\n' ∷ []) rest)
      ∙ fgets_lines-line 1024 1024 row_line rest (omega (arith, short)) row_line-OneLine
      ∙ ap (λ x. x ∷ fgets_lines 1024 1024 rest) (sym row_text-line)

pub file_lines-rows : (l : List Row) → All IsRow l → file_lines (rows_text l) ≡ map row_text l
unfolding rows_text fgets_lines file_lines
file_lines-rows [] f = refl
file_lines-rows (s ∷ l) f =
    fgets_lines-row s f.0 (rows_text l) ∙ ap (◌∷◌ (row_text s)) (file_lines-rows l f.1)

pub join-rows : (l : List Row) → join (map row_text l) ≡ rows_text l
unfolding join rows_text
join-rows [] = refl
join-rows (s ∷ l) = ap (◌++◌ (row_text s)) (join-rows l)
