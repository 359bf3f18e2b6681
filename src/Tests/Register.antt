-- ===== src/Tests/Register.antt =====
-- `register_sched` on a file of one entry.
use embedded_pg.Base.{◌≡◌, refl, true, some, [], ◌∷◌, ◌++◌}
use embedded_pg.Base.Int.{pos}
use embedded_pg.Base.Outcome.{ok, hang}
use embedded_pg.Cstring.{Str}
use embedded_pg.Stdio.{is_space, skip_space, word, scan_word}
use embedded_pg.Schedule.Align.Laws.{aligned}
use embedded_pg.Schedule.File.RoundTrip.{rows_text}
use embedded_pg.Schedule.Session.{Session}
use embedded_pg.Schedule.Change.{ask_change}
use embedded_pg.Schedule.Register.{
  scan_int, scan_signed, scan_digits, digits_from, ask_count, ask_count_on, register_rows,
  register_sched,
}
use embedded_pg.Schedule.Register.Count.{Asks, ask_count-Asks, ask_count-hangs}
use embedded_pg.Schedule.Register.Laws.{register_sched-adds}
use embedded_pg.Terminal.{
  ask_date, ask_exact, ask_exact_on, ask_subject, ask_time, scan_into, myflush,
}
use embedded_pg.Tests.Data.{june_6, nine, math, math_entry, art_entry, slots, session-Loads}

-- One subject: its name and time, and a key.
abbrev after_count : Str
after_count = b'\n' ∷ (math ++ b'\n' ∷ (nine ++ b'\n' ∷ b'x' ∷ []))

abbrev after_date : Str
after_date = b'\n' ∷ b'1' ∷ after_count

abbrev registering : Session
registering = record {
  disk = record { text = some (rows_text (art_entry ∷ [])); writable = true };
  input = june_6 ++ after_date;
  screen = [];
}

date-answer : ask_date (june_6 ++ after_date) ≡ ok (june_6, after_date)
unfolding ask_date ask_exact ask_exact_on scan_into scan_word skip_space word is_space
date-answer = refl

count-answer : ask_count after_date ≡ ok (pos 1, after_count)
unfolding ask_count ask_count_on scan_int scan_signed scan_digits digits_from skip_space is_space
count-answer = refl

rows-answer :
    register_rows june_6 1 after_count ≡ ok (rows_text (math_entry ∷ []), b'\n' ∷ b'x' ∷ [])
unfolding register_rows rows_text ask_change ask_time ask_exact ask_exact_on ask_subject scan_into
    scan_word skip_space word is_space myflush
rows-answer = refl

register_sched-adds_example :
    register_sched slots registering
    ≡ ok (record registering {
      disk = record registering.disk {
        text = some (rows_text (aligned (art_entry ∷ math_entry ∷ [])));
      };
      input = b'\n' ∷ b'x' ∷ [];
    })
register_sched-adds_example =
    register_sched-adds slots registering (art_entry ∷ []) (math_entry ∷ []) june_6 after_date
      after_count (b'\n' ∷ b'x' ∷ []) (pos 1) refl refl (session-Loads []) date-answer count-answer
      rows-answer

-- a letter where the number should be
abbrev letter : Str
letter = b'x' ∷ b'\n' ∷ []

ask_count-Asks_example : Asks letter (ask_count letter)
ask_count-Asks_example = ask_count-Asks letter

ask_count-letter : ask_count letter ≡ hang
unfolding scan_int scan_signed scan_digits skip_space is_space
ask_count-letter = ask_count-hangs letter refl
