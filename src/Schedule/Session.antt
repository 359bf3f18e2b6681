-- ===== src/Schedule/Session.antt =====
-- What the commands of the schedule menu work on: the file, what the user types, and what they show.
use embedded_pg.Base.{ℕ, Option, none, some, List, ◌++◌}
use embedded_pg.Cstring.{Str}
use embedded_pg.Schedule.File.{Disk}
use embedded_pg.Terminal.{Line}

pub record Session : Type 0 where
  pub disk : Disk
  pub input : Str
  pub screen : List Line

-- The rounds of a loop `for (i = 0; i < count; i++)` over what `txt_read` returned: none for -1.
abbrev pub count_of : Option ℕ → ℕ
count_of none = 0
count_of (some n) = n

-- The command has shown `lines` and left `input` unread.
abbrev pub shown : Session → List Line → Str → Session
shown s lines input = record s { input = input; screen = s.screen ++ lines }
