-- ===== src/Tests/Arrays.antt =====
-- `re_align` and the file on concrete arrays.
use mathlib.Core.List.{Perm}
use embedded_pg.Base.{◌≡◌, refl, some, List, [], ◌∷◌, ◌++◌, drop, arith}
use embedded_pg.Base.Outcome.{ok, fault, ◌>>=◌}
use embedded_pg.Cstring.{strcmp}
use embedded_pg.Schedule.Entry.{Entry, blank}
use embedded_pg.Schedule.Align.{re_align, date_loop, date_pass, time_loop, time_pass}
use embedded_pg.Schedule.Align.Laws.{IsAligned, re_align_sorts}
use embedded_pg.Schedule.Align.Overrun.{re_align_full, re_align_pulls_in}
use embedded_pg.Schedule.File.{txt_read, txt_write}
use embedded_pg.Schedule.File.RoundTrip.{txt_read-txt_write}
use embedded_pg.Tests.Data.{math_entry, art_entry, entries, disk, slots, entries-IsRow}

re_align-two : re_align (entries ++ blank ∷ []) 2 ≡ ok (math_entry ∷ art_entry ∷ blank ∷ [])
unfolding re_align date_loop date_pass time_loop time_pass strcmp
re_align-two = refl

re_align_sorts_example :
    (s : List Entry) × (re_align (entries ++ blank ∷ []) 2 ≡ ok (s ++ blank ∷ []))
    × Perm s entries
    × IsAligned s
unfolding strcmp
re_align_sorts_example = re_align_sorts entries blank [] (refl, (refl, tt))

re_align_full_example : re_align entries 2 ≡ fault
re_align_full_example = re_align_full art_entry (math_entry ∷ [])

-- The entry at ten, with a slot of the same day at nine behind it.
abbrev late : Entry
late = record math_entry { time = b'1' ∷ b'0' ∷ b'0' ∷ b'0' ∷ [] }

re_align_pulls_in_example :
    re_align (late ∷ math_entry ∷ blank ∷ []) 1 ≡ ok (math_entry ∷ late ∷ blank ∷ [])
unfolding strcmp
re_align_pulls_in_example = re_align_pulls_in late math_entry blank [] refl refl refl

txt_read-txt_write_example :
    (txt_write (entries ++ []) 2 disk >>= txt_read slots) ≡ ok (entries ++ drop 2 slots, some 2)
txt_read-txt_write_example =
    txt_read-txt_write entries [] slots disk refl (omega arith) entries-IsRow
