-- ===== src/Menu.antt =====
-- The loops of `menu_sel` and `menu_sched` of studysys/schedule.c that ask which entry of the menu is
-- wanted.
pub mod Choice
pub mod Commands
pub mod Left
pub mod Unroll
use embedded_pg.Base.{
  ℕ, zero, suc, Bool, true, false, ◌&&◌, Option, none, some, length, leb, if◌then◌else◌,
}
use embedded_pg.Base.Int.{ℤ, pos, negsuc}
use embedded_pg.Base.Outcome.{Outcome, ok, fault, starved, ◌>>=◌}
use embedded_pg.Cstring.{Str}
use embedded_pg.Schedule.Register.{scan_int, fits_int}
use embedded_pg.Terminal.{myflush}

-- `sel < 1 || sel > last` does not hold.
abbrev pub is_entry : ℕ → ℤ → Bool
is_entry last (pos n) = leb 1 n && leb n last
is_entry last (negsuc n) = false

-- The loop of a menu of so many entries, on fuel.
unfoldable pub ask_entry_on : ℕ → ℕ → Str → Outcome (ℤ × Str)
ask_entry_on zero last s = starved
ask_entry_on (suc fuel) last s = elim (scan_int s).0 [
  | none ↦ do r ← myflush (scan_int s).1; ask_entry_on fuel last r
  | some sel ↦ elim (fits_int sel) [
    | false ↦ fault
    | true ↦ elim (is_entry last sel) [
      | true ↦ ok (sel, (scan_int s).1)
      | false ↦ ask_entry_on fuel last (scan_int s).1
    ]
  ]
]

-- Each round takes a byte at least.
unfoldable pub ask_entry : ℕ → Str → Outcome (ℤ × Str)
unfolding ask_entry_on
ask_entry last s = ask_entry_on (suc (length s)) last s

unfoldable pub menu_sel : Str → Outcome (ℤ × Str)
unfolding ask_entry
menu_sel = ask_entry 3
