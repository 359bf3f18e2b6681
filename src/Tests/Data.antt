-- ===== src/Tests/Data.antt =====
-- A file of two entries, an array that it is read into, and what the user types.
use embedded_pg.Base.{◌≡◌, refl, true, some, List, [], ◌∷◌, arith, All}
use embedded_pg.Cstring.{Str, strcmp}
use embedded_pg.Stdio.{is_space}
use embedded_pg.Stdio.Laws.{IsField}
use embedded_pg.Schedule.Entry.{Entry, blank}
use embedded_pg.Schedule.Align.Laws.{aligned}
use embedded_pg.Base.Exchange.{rounds, pass}
use embedded_pg.Schedule.File.{Disk}
use embedded_pg.Schedule.File.RoundTrip.{IsRow, rows_text}
use embedded_pg.Schedule.Session.{Session}
use embedded_pg.Schedule.Loads.{Loads}
use embedded_pg.Schedule.Delete.Laws.{Holds}

-- "170606", "170607", "0900", "1000", "MATH", "ART"
abbrev pub june_6 : Str
june_6 = b'1' ∷ b'7' ∷ b'0' ∷ b'6' ∷ b'0' ∷ b'6' ∷ []

abbrev pub june_7 : Str
june_7 = b'1' ∷ b'7' ∷ b'0' ∷ b'6' ∷ b'0' ∷ b'7' ∷ []

abbrev pub nine : Str
nine = b'0' ∷ b'9' ∷ b'0' ∷ b'0' ∷ []

abbrev pub ten : Str
ten = b'1' ∷ b'0' ∷ b'0' ∷ b'0' ∷ []

abbrev pub math : Str
math = b'M' ∷ b'A' ∷ b'T' ∷ b'H' ∷ []

abbrev pub art : Str
art = b'A' ∷ b'R' ∷ b'T' ∷ []

abbrev pub math_entry : Entry
math_entry = record { date = june_6; name_sub = math; time = nine }

abbrev pub art_entry : Entry
art_entry = record { date = june_7; name_sub = art; time = ten }

-- The later one stands first in the file.
abbrev pub entries : List Entry
entries = art_entry ∷ math_entry ∷ []

abbrev pub disk : Disk
disk = record { text = some (rows_text entries); writable = true }

abbrev pub session : Str → Session
session input = record { disk = disk; input = input; screen = [] }

june_6-IsField : IsField 6 june_6
unfolding is_space
june_6-IsField = record {
  some_byte = omega arith;
  fits = omega arith;
  no_space = (refl, (refl, (refl, (refl, (refl, (refl, tt))))));
}

june_7-IsField : IsField 6 june_7
unfolding is_space
june_7-IsField = record {
  some_byte = omega arith;
  fits = omega arith;
  no_space = (refl, (refl, (refl, (refl, (refl, (refl, tt))))));
}

nine-IsField : IsField 4 nine
unfolding is_space
nine-IsField = record {
  some_byte = omega arith;
  fits = omega arith;
  no_space = (refl, (refl, (refl, (refl, tt))));
}

ten-IsField : IsField 4 ten
unfolding is_space
ten-IsField = record {
  some_byte = omega arith;
  fits = omega arith;
  no_space = (refl, (refl, (refl, (refl, tt))));
}

math-IsField : IsField 19 math
unfolding is_space
math-IsField = record {
  some_byte = omega arith;
  fits = omega arith;
  no_space = (refl, (refl, (refl, (refl, tt))));
}

art-IsField : IsField 19 art
unfolding is_space
art-IsField = record {
  some_byte = omega arith;
  fits = omega arith;
  no_space = (refl, (refl, (refl, tt)));
}

pub entries-IsRow : All IsRow entries
entries-IsRow = (
  record { date_field = june_7-IsField; name_field = art-IsField; time_field = ten-IsField },
  (
    record { date_field = june_6-IsField; name_field = math-IsField; time_field = nine-IsField },
    tt,
  ),
)

-- An array whose slots are blank.
abbrev pub slots : List Entry
slots = blank ∷ blank ∷ blank ∷ blank ∷ []

pub session-Loads : (input : Str) → Loads slots (session input).disk entries
unfolding strcmp
session-Loads input = record {
  text = refl;
  rows = entries-IsRow;
  behind = blank;
  others = blank ∷ [];
  room = omega arith;
  slots = refl;
  other_date = (refl, (refl, tt));
}

pub session-Holds : (input : Str) → Holds (session input) entries
session-Holds input = record {
  text = refl;
  writable = refl;
  rows = entries-IsRow;
  room = omega arith;
}

pub aligned-entries : aligned entries ≡ math_entry ∷ art_entry ∷ []
unfolding aligned rounds pass strcmp
aligned-entries = refl
