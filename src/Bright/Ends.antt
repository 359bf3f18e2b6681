-- ===== src/Bright/Ends.antt =====
-- The fuel of `get_subject_bright` is enough.
use embedded_pg.Base.{
  ℕ, zero, suc, ◌≤◌, ◌<◌, ◌≡◌, refl, inl, inr, Option, none, some, length, arith, Bool-cases,
  Option-cases,
}
use embedded_pg.Base.Outcome.{Outcome, ok, fault, Ends, either-Ends}
use embedded_pg.Cstring.{Str, same}
use embedded_pg.Schedule.File.{Disk}
use embedded_pg.Schedule.Register.{scan_int, fits_int}
use embedded_pg.Terminal.Ask.{at_end, too_long, got, scan_into-Scanned}
use embedded_pg.Menu.Choice.{scan_int-Takes, Takes-le}
use embedded_pg.Bright.{Subject, scan_bright, scan_subject, find_bright, get_subject_bright}

-- What the scan of a row comes to: a subject takes a byte at least.
data Read (n : ℕ) (o : Outcome (Option (Subject × Str))) : Type 0 where
  missing : o ≡ ok none → Read n o
  broken : o ≡ fault → Read n o
  subject : (x : Subject) (r : Str) → o ≡ ok (some (x, r)) → length r < n → Read n o

scan_bright-Read : (n : ℕ) (name r : Str) → length r < n → Read n (scan_bright name r)
unfolding scan_bright
scan_bright-Read n name r h =
    let le : length (scan_int r).1 ≤ length r = Takes-le r (scan_int r) (scan_int-Takes r) in
    elim (Option-cases (scan_int r).0) [
      | inl e ↦ missing (rw (e, scan_bright) refl)
      | inr (b, e) ↦ elim (Bool-cases (fits_int b)) [
        | inl f ↦
            subject (record { name = name; bright = b }) (scan_int r).1
              (rw (e, scan_bright) (rw f refl)) (omega arith)
        | inr f ↦ broken (rw (e, scan_bright) (rw f refl))
      ]
    ]

scan_subject-Read : (s : Str) → Read (length s) (scan_subject s)
unfolding scan_subject
scan_subject-Read s = elim (scan_into-Scanned 20 s) [
  | at_end e ↦ missing (rw e refl)
  | too_long e ↦ broken (rw e refl)
  | got w r e p q ns le ↦ rw e (scan_bright-Read (length s) w r (omega arith))
]

find_bright-Ends :
    (fuel : ℕ) (name text : Str) → length text < fuel → Ends (find_bright fuel name text)
unfolding find_bright
find_bright-Ends zero name text h = absurd (omega arith)
find_bright-Ends (suc fuel) name text h = elim (scan_subject-Read text) [
  | missing e ↦ rw e tt
  | broken e ↦ rw e tt
  | subject x r e l ↦ rw e (
      either-Ends (same name x.name) (ok x.bright) (find_bright fuel name r) tt
        (find_bright-Ends fuel name r (omega arith)))
]

-- `get_subject_bright` does not want for fuel, whatever the file holds.
get_subject_bright-Ends : (name : Str) (disk : Disk) → Ends (get_subject_bright name disk)
unfolding get_subject_bright
get_subject_bright-Ends name disk = elim (Option-cases disk.text) [
  | inl e ↦ rw (e, get_subject_bright) tt
  | inr (text, e) ↦
      rw (e, get_subject_bright) (find_bright-Ends (suc (length text)) name text (omega arith))
]
