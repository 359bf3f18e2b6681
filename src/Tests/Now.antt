-- ===== src/Tests/Now.antt =====
-- `change_sched` and `cur_subject` on a file of two entries.
use embedded_pg.Base.{◌≡◌, refl, true, some, [], ◌∷◌, ◌++◌, arith}
use embedded_pg.Base.Outcome.{ok}
use embedded_pg.Cstring.{Str, after, strcmp}
use embedded_pg.Stdio.{is_space, skip_space, word, scan_word, two_digits}
use embedded_pg.Schedule.Entry.{Entry}
use embedded_pg.Terminal.{
  ask_date, ask_exact, ask_exact_on, ask_subject, ask_time, scan_into, myflush, getch,
}
use embedded_pg.Schedule.Align.Laws.{aligned}
use embedded_pg.Schedule.File.RoundTrip.{rows_text}
use embedded_pg.Schedule.Session.{Session, shown}
use embedded_pg.Schedule.Delete.{rows_on}
use embedded_pg.Schedule.Change.{change_sched, ask_change}
use embedded_pg.Schedule.Change.Laws.{change_sched-last, change_sched-garbage, change_sched-none}
use embedded_pg.Schedule.Current.{LocalTime, nowtime, sched_time, cur_subject, nothing}
use embedded_pg.Schedule.Current.Laws.{cur_subject-nothing, cur_subject-latest, after-sched_time}
use embedded_pg.Tests.Data.{
  june_6, ten, math, art, math_entry, art_entry, entries, disk, session, slots, session-Loads,
  aligned-entries,
}

-- The date and name, then the new name and time, each on its line, and a key.
abbrev typed_change : Str → Str → Str
typed_change name tail = june_6 ++ b'\n' ∷ (name ++ b'\n' ∷ tail)

abbrev new_row : Str
new_row = art ++ b'\n' ∷ (ten ++ b'\n' ∷ b'x' ∷ [])

abbrev changed_entry : Entry
changed_entry = record { date = june_6; name_sub = art; time = ten }

date-typed : (r : Str) → ask_date (june_6 ++ b'\n' ∷ r) ≡ ok (june_6, b'\n' ∷ r)
unfolding ask_date ask_exact ask_exact_on scan_into scan_word skip_space word is_space
date-typed r = refl

math-asked : (r : Str) → ask_subject (b'\n' ∷ (math ++ b'\n' ∷ r)) ≡ ok (math, b'\n' ∷ r)
unfolding ask_subject scan_into scan_word skip_space word is_space
math-asked r = refl

art-asked : (r : Str) → ask_subject (b'\n' ∷ (art ++ b'\n' ∷ r)) ≡ ok (art, b'\n' ∷ r)
unfolding ask_subject scan_into scan_word skip_space word is_space
art-asked r = refl

change-asked : ask_change math_entry (b'\n' ∷ new_row) ≡ ok (changed_entry, b'\n' ∷ b'x' ∷ [])
unfolding ask_change ask_time ask_exact ask_exact_on ask_subject scan_into scan_word skip_space word
    is_space myflush
change-asked = refl

abbrev changing : Session
changing = session (typed_change math new_row)

change_sched-last_example :
    change_sched slots 7 changing
    ≡ ok (record (shown changing (rows_on june_6 (aligned entries)) (getch (b'x' ∷ []))) {
      disk = record changing.disk { text = some (rows_text (changed_entry ∷ art_entry ∷ [])) };
    })
unfolding strcmp myflush
change_sched-last_example =
    change_sched-last slots 7 changing entries (session-Loads (typed_change math new_row)) refl
      june_6 (b'\n' ∷ (math ++ b'\n' ∷ new_row)) math (b'\n' ∷ new_row) (omega arith)
      (date-typed (math ++ b'\n' ∷ new_row)) (math-asked new_row) [] math_entry changed_entry
      (art_entry ∷ []) (b'\n' ∷ b'x' ∷ []) (b'x' ∷ []) aligned-entries refl (refl, tt) change-asked
      refl

-- No entry of the day has the name.
abbrev mistyped : Session
mistyped = session (typed_change art new_row)

change_sched-garbage_example :
    change_sched slots 0 mistyped
    ≡ ok (record (shown mistyped (rows_on june_6 (aligned entries)) (getch (b'x' ∷ []))) {
      disk = record mistyped.disk { text = some (rows_text (changed_entry ∷ art_entry ∷ [])) };
    })
unfolding strcmp myflush
change_sched-garbage_example =
    change_sched-garbage slots 0 mistyped entries (session-Loads (typed_change art new_row)) refl
      june_6 (b'\n' ∷ (art ++ b'\n' ∷ new_row)) art (b'\n' ∷ new_row) (omega arith)
      (date-typed (art ++ b'\n' ∷ new_row)) (art-asked new_row) [] math_entry changed_entry
      (art_entry ∷ []) (b'\n' ∷ b'x' ∷ []) (b'x' ∷ []) aligned-entries refl
      (rw aligned-entries (refl, (refl, tt))) change-asked refl

change_sched-none_example :
    change_sched slots 7 mistyped
    ≡ ok (record (shown mistyped (rows_on june_6 (aligned entries)) (getch new_row)) {
      disk = record mistyped.disk { text = some (rows_text (aligned entries)) };
    })
unfolding strcmp myflush
change_sched-none_example =
    change_sched-none slots 7 mistyped entries (session-Loads (typed_change art new_row)) refl
      june_6 (b'\n' ∷ (art ++ b'\n' ∷ new_row)) art (b'\n' ∷ new_row) (omega arith)
      (date-typed (art ++ b'\n' ∷ new_row)) (art-asked new_row) new_row (omega arith)
      (rw aligned-entries (refl, (refl, tt))) refl

-- 6 June 2017 at 15:45, and the day before
abbrev afternoon : LocalTime
afternoon = record { year = 117; month = 5; mday = 6; hour = 15; minute = 45 }

abbrev day_before : LocalTime
day_before = record afternoon { mday = 5 }

nowtime-afternoon :
    nowtime afternoon ≡ b'1' ∷ b'7' ∷ b'0' ∷ b'6' ∷ b'0' ∷ b'6' ∷ b'1' ∷ b'5' ∷ b'4' ∷ b'5' ∷ []
unfolding nowtime two_digits
nowtime-afternoon = refl

after-sched_time_example : after (sched_time art_entry) (sched_time math_entry) ≡ true
unfolding strcmp
after-sched_time_example =
    after-sched_time art_entry math_entry (record { date_full = refl; time_full = refl })
      (record { date_full = refl; time_full = refl })

cur_subject-nothing_example : cur_subject slots (some 2) disk day_before ≡ ok nothing
unfolding strcmp nowtime two_digits sched_time
cur_subject-nothing_example =
    cur_subject-nothing slots disk entries (session-Loads []) day_before
      (rw aligned-entries (refl, (refl, tt)))

cur_subject-latest_example : cur_subject slots (some 2) disk afternoon ≡ ok math
unfolding strcmp nowtime two_digits sched_time
cur_subject-latest_example =
    cur_subject-latest slots disk entries (session-Loads []) afternoon [] math_entry
      (art_entry ∷ [])
      (
        record { date_full = refl; time_full = refl },
        (record { date_full = refl; time_full = refl }, tt),
      )
      aligned-entries refl (refl, tt)
