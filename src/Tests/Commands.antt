-- ===== src/Tests/Commands.antt =====
-- The commands of the menu on a file of two entries.
use embedded_pg.Base.{◌≡◌, refl, some, List, [], ◌∷◌, ◌++◌}
use embedded_pg.Base.Outcome.{ok}
use embedded_pg.Cstring.{Str, strcmp}
use embedded_pg.Stdio.{is_space, skip_space, word, scan_word}
use embedded_pg.Terminal.{
  Line, message, no_entry_on_date, wrong_subject, deleted, ask_date, ask_exact, ask_exact_on,
  ask_subject, scan_into, myflush, getch,
}
use embedded_pg.Terminal.Ask.{Answers, ask_exact-Answers}
use embedded_pg.Schedule.Align.Laws.{aligned}
use embedded_pg.Schedule.File.RoundTrip.{rows_text}
use embedded_pg.Schedule.Session.{Session, shown}
use embedded_pg.Schedule.Show.{check_sched, check_sched_date, no_date}
use embedded_pg.Schedule.Show.Rows.{read_back, only_on, check_sched_shows, check_sched_date_shows}
use embedded_pg.Schedule.Delete.{delete_sched, rows_on}
use embedded_pg.Schedule.Delete.Laws.{delete-none, delete-refuses, delete-removes}
use embedded_pg.Tests.Data.{
  june_6, math, art, math_entry, art_entry, entries, session, slots, session-Loads, session-Holds,
  aligned-entries,
}

-- the answers to the questions, each on its line, and a key
abbrev lines_typed : List Str → Str
lines_typed [] = b'x' ∷ []
lines_typed (s ∷ l) = s ++ b'\n' ∷ lines_typed l

ask_exact-Answers_example : Answers 7 6 (ask_exact 7 6 (lines_typed (math ∷ june_6 ∷ [])))
ask_exact-Answers_example = ask_exact-Answers 7 6 (lines_typed (math ∷ june_6 ∷ []))

ask_date-retry : ask_date (lines_typed (math ∷ june_6 ∷ [])) ≡ ok (june_6, lines_typed ([] ∷ []))
unfolding ask_date ask_exact ask_exact_on scan_into scan_word skip_space word is_space myflush
ask_date-retry = refl

abbrev listing : Session
listing = session (lines_typed ([] ∷ []))

check_sched_shows_example :
    (rows : List Line) × (check_sched slots listing
      ≡ ok (shown listing rows (getch (lines_typed []))))
    × (read_back no_date rows ≡ aligned entries)
unfolding myflush
check_sched_shows_example =
    check_sched_shows slots listing entries (session-Loads (lines_typed ([] ∷ []))) (lines_typed [])
      refl

-- The date is asked for.
abbrev dated : Str → Session
dated d = session (lines_typed (d ∷ []))

dated-typed : ask_date (dated june_6).input ≡ ok (june_6, lines_typed ([] ∷ []))
unfolding ask_date ask_exact ask_exact_on scan_into scan_word skip_space word is_space
dated-typed = refl

check_sched_date_shows_example :
    (rows : List Line) × (check_sched_date slots (dated june_6)
      ≡ ok (shown (dated june_6) rows (getch (lines_typed []))))
    × (read_back no_date rows ≡ only_on june_6 (aligned entries))
unfolding myflush
check_sched_date_shows_example =
    check_sched_date_shows slots (dated june_6) entries (session-Loads (lines_typed (june_6 ∷ [])))
      june_6 (lines_typed ([] ∷ [])) (lines_typed []) dated-typed refl

-- A date that no entry has, and a date and a name.
abbrev june_8 : Str
june_8 = b'1' ∷ b'7' ∷ b'0' ∷ b'6' ∷ b'0' ∷ b'8' ∷ []

june_8-typed : ask_date (dated june_8).input ≡ ok (june_8, lines_typed ([] ∷ []))
unfolding ask_date ask_exact ask_exact_on scan_into scan_word skip_space word is_space
june_8-typed = refl

delete-none_example :
    delete_sched (dated june_8)
    ≡ ok (shown (dated june_8) (message no_entry_on_date ∷ []) (getch (lines_typed [])))
unfolding myflush strcmp
delete-none_example =
    delete-none (dated june_8) entries (session-Holds (lines_typed (june_8 ∷ []))) june_8
      (lines_typed ([] ∷ [])) june_8-typed (lines_typed []) (rw aligned-entries (refl, (refl, tt)))
      refl

abbrev named : Str → Session
named n = session (lines_typed (june_6 ∷ n ∷ []))

named-typed : (n : Str) → ask_date (named n).input ≡ ok (june_6, b'\n' ∷ lines_typed (n ∷ []))
unfolding ask_date ask_exact ask_exact_on scan_into scan_word skip_space word is_space
named-typed n = refl

art-typed : ask_subject (b'\n' ∷ lines_typed (art ∷ [])) ≡ ok (art, lines_typed ([] ∷ []))
unfolding ask_subject scan_into scan_word skip_space word is_space
art-typed = refl

math-typed : ask_subject (b'\n' ∷ lines_typed (math ∷ [])) ≡ ok (math, lines_typed ([] ∷ []))
unfolding ask_subject scan_into scan_word skip_space word is_space
math-typed = refl

delete-refuses_example :
    delete_sched (named art)
    ≡ ok (
        shown
          (named art)
          (rows_on june_6 (aligned entries) ++ message wrong_subject ∷ [])
          (lines_typed ([] ∷ [])))
unfolding strcmp
delete-refuses_example =
    delete-refuses (named art) entries (session-Holds (lines_typed (june_6 ∷ art ∷ []))) june_6
      (b'\n' ∷ lines_typed (art ∷ [])) (named-typed art) [] math_entry (art_entry ∷ [])
      aligned-entries tt refl art (lines_typed ([] ∷ [])) art-typed refl

delete-removes_example :
    delete_sched (named math)
    ≡ ok
        (record (shown
          (named math)
          (rows_on june_6 (aligned entries) ++ message deleted ∷ [])
          (getch (lines_typed []))) {
            disk = record (named math).disk { text = some (rows_text (art_entry ∷ [])) };
          })
unfolding strcmp myflush
delete-removes_example =
    delete-removes (named math) entries (session-Holds (lines_typed (june_6 ∷ math ∷ []))) june_6
      (b'\n' ∷ lines_typed (math ∷ [])) (named-typed math) [] math_entry (art_entry ∷ [])
      aligned-entries tt refl math (lines_typed ([] ∷ [])) math-typed (lines_typed []) refl refl
