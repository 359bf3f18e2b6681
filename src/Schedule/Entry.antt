-- ===== src/Schedule/Entry.antt =====
-- `struct schedule` of include/schedule.h, and the sizes of its arrays.
use embedded_pg.Base.{ℕ, []}
use embedded_pg.Cstring.{Str}

-- DATA_MAX, SUBJECT_NAME_MAX and TIME_STR_MAX, each with its NUL
abbrev pub date_max : ℕ
date_max = 7

abbrev pub subject_name_max : ℕ
subject_name_max = 20

abbrev pub time_str_max : ℕ
time_str_max = 5

pub record Entry : Type 0 where
  pub date : Str
  pub name_sub : Str
  pub time : Str

-- A zeroed entry.
abbrev pub blank : Entry
blank = record { date = []; name_sub = []; time = [] }
