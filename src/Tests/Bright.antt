-- ===== src/Tests/Bright.antt =====
-- A file of two subjects, whose second one is made brighter.
use embedded_pg.Base.{ℕ, ◌≡◌, refl, true, some, [], ◌∷◌, arith}
use embedded_pg.Base.Int.{pos}
use embedded_pg.Base.Outcome.{ok}
use embedded_pg.Cstring.{Str, strcmp}
use embedded_pg.Stdio.{is_space, skip_space}
use embedded_pg.Schedule.File.{Disk}
use embedded_pg.Schedule.Register.{scan_int}
use embedded_pg.Terminal.{myflush}
use embedded_pg.Bright.{Unset, scan_number, Changed, change_subject_bright, get_subject_bright}
use embedded_pg.Bright.Rows.{Row, IsRow, rows_text}
use embedded_pg.Bright.Change.{change_subject_bright-get_subject_bright}

abbrev korean : Row
korean = record { name = b'K' ∷ b'o' ∷ b'r' ∷ b'e' ∷ b'a' ∷ b'n' ∷ []; bright = 30 }

abbrev math : ℕ → Row
math b = record { name = b'M' ∷ b'a' ∷ b't' ∷ b'h' ∷ []; bright = b }

korean-IsRow : IsRow korean
unfolding is_space
korean-IsRow = record {
  name_field = record {
    some_byte = omega arith;
    fits = omega arith;
    no_space = (refl, (refl, (refl, (refl, (refl, (refl, tt))))));
  };
  three_digits = omega arith;
}

math-IsRow : IsRow (math 50)
unfolding is_space
math-IsRow = record {
  name_field = record {
    some_byte = omega arith;
    fits = omega arith;
    no_space = (refl, (refl, (refl, (refl, tt))));
  };
  three_digits = omega arith;
}

abbrev disk : Disk
disk = record { text = some (rows_text (korean ∷ math 50 ∷ [])); writable = true }

abbrev unset : Unset
unset = record { names = []; new_bright = pos 0 }

-- "70", a newline and a key
abbrev typed : Str
typed = b'7' ∷ b'0' ∷ b'\n' ∷ b'x' ∷ []

change_subject_bright-get_subject_bright_example :
    (changed : Changed) × (change_subject_bright unset (pos 1) disk typed ≡ ok changed)
    × (changed.ret ≡ pos 0)
    × (changed.disk.text ≡ some (rows_text (korean ∷ math 70 ∷ [])))
    × (get_subject_bright (b'M' ∷ b'a' ∷ b't' ∷ b'h' ∷ []) changed.disk ≡ ok (pos 70))
unfolding strcmp scan_number scan_int myflush skip_space
change_subject_bright-get_subject_bright_example =
    change_subject_bright-get_subject_bright unset typed (b'\n' ∷ b'x' ∷ []) (b'x' ∷ []) 70 1
      (b'M' ∷ b'a' ∷ b't' ∷ b'h' ∷ []) disk (korean ∷ []) (math 50) [] refl refl
      (korean-IsRow, (math-IsRow, tt)) refl refl (refl, tt) (omega arith) refl refl
