-- ===== src/Tests/Menu.antt =====
-- The question of the first menu, and the menu of the schedule.
use embedded_pg.Base.{◌≡◌, refl, [], ◌∷◌}
use embedded_pg.Base.Int.{pos}
use embedded_pg.Base.Outcome.{ok, ◌>>=◌, Gives, Ends}
use embedded_pg.Cstring.{Str}
use embedded_pg.Stdio.{is_space, skip_space}
use embedded_pg.Schedule.Register.{scan_int, scan_signed, scan_digits, digits_from}
use embedded_pg.Terminal.{myflush}
use embedded_pg.Menu.{ask_entry, ask_entry_on, menu_sel}
use embedded_pg.Schedule.Session.{Session}
use embedded_pg.Menu.Commands.{Stale, sched_round, menu_sched}
use embedded_pg.Menu.Unroll.{Shrinks, or_leave, menu_sched-unrolls}
use embedded_pg.Tests.Data.{session, slots}
use embedded_pg.Menu.Choice.{Chosen, ask_entry-Chosen}

-- a letter, a number that is too large, and an entry
abbrev typed : Str
typed = b'x' ∷ b'\n' ∷ b'7' ∷ b'\n' ∷ b'2' ∷ b'\n' ∷ []

menu_sel-typed : menu_sel typed ≡ ok (pos 2, b'\n' ∷ [])
unfolding menu_sel ask_entry ask_entry_on scan_int scan_signed scan_digits digits_from skip_space
    is_space myflush
menu_sel-typed = refl

ask_entry-Chosen_example : Chosen 3 (ask_entry 3 typed)
ask_entry-Chosen_example = ask_entry-Chosen 3 typed

-- The listing, a key, and the way out.
abbrev looking : Session
looking = session (b'4' ∷ b'\n' ∷ b'x' ∷ b'6' ∷ [])

abbrev stale : Stale
stale = record { tmp_sched = slots; change = 0 }

menu_sched-unrolls_example :
    Gives (Shrinks looking) (sched_round stale looking)
    × (menu_sched stale looking ≡ (sched_round stale looking >>= or_leave (menu_sched stale)))
    × Ends (menu_sched stale looking)
menu_sched-unrolls_example = menu_sched-unrolls stale looking
