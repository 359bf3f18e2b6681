-- ===== src/Menu/Commands.antt =====
-- The commands behind the menus: `menu_sched` and the loop of `main` of studysys/schedule.c. What
-- the arrays and variables of the commands hold at first is an argument.
use embedded_pg.Base.{ℕ, zero, suc, Bool, true, false, List, [], ◌∷◌, length}
use embedded_pg.Base.Int.{ℤ, pos}
use embedded_pg.Base.Outcome.{Outcome, ok, starved, ◌>>=◌}
use embedded_pg.Cstring.{Str}
use embedded_pg.Schedule.Entry.{Entry}
use embedded_pg.Schedule.File.{Disk}
use embedded_pg.Schedule.Session.{Session}
use embedded_pg.Schedule.Register.{register_sched}
use embedded_pg.Schedule.Change.{change_sched}
use embedded_pg.Schedule.Delete.{delete_sched}
use embedded_pg.Schedule.Show.{check_sched, check_sched_date}
use embedded_pg.Comm.{Information}
use embedded_pg.Receiver.{InfoLine, print_other_infos}
use embedded_pg.Bright.{Unset}
use embedded_pg.Bright.Light.{Host, Told, Console, select_bright_menu}
use embedded_pg.Menu.{ask_entry, menu_sel}

-- The arrays of rows, and the variable `change` of `change_sched`.
pub record Stale : Type 0 where
  pub tmp_sched : List Entry
  pub change : ℕ

-- The `switch` of `menu_sched`: whether the menu goes on, and what the command leaves.
unfoldable pub do_sched : Stale → ℤ → Session → Outcome (Bool × Session)
do_sched stale (pos (suc zero)) s = do s' ← register_sched stale.tmp_sched s; ok (true, s')
do_sched stale (pos (suc (suc zero))) s = do
  s' ← change_sched stale.tmp_sched stale.change s
  ok (true, s')
do_sched stale (pos (suc (suc (suc zero)))) s = do s' ← delete_sched s; ok (true, s')
do_sched stale (pos (suc (suc (suc (suc zero))))) s = do
  s' ← check_sched stale.tmp_sched s
  ok (true, s')
do_sched stale (pos (suc (suc (suc (suc (suc zero)))))) s = do
  s' ← check_sched_date stale.tmp_sched s
  ok (true, s')
do_sched stale (pos (suc (suc (suc (suc (suc (suc zero))))))) s = ok (false, s)
do_sched stale sel s = ok (true, s)

-- A round of the `while` of `menu_sched`.
unfoldable pub sched_round : Stale → Session → Outcome (Bool × Session)
sched_round stale s = do (sel, r) ← ask_entry 6 s.input; do_sched stale sel (record s { input = r })

-- The `while`, on fuel.
unfoldable pub menu_sched_on : ℕ → Stale → Session → Outcome Session
menu_sched_on zero stale s = starved
menu_sched_on (suc fuel) stale s = do
  (on, s') ← sched_round stale s
  elim on [ true ↦ menu_sched_on fuel stale s' | false ↦ ok s' ]

-- Each round takes a byte at least.
unfoldable pub menu_sched : Stale → Session → Outcome Session
unfolding menu_sched_on
menu_sched stale s = menu_sched_on (suc (length s.input)) stale s

-- What a round of `main` finds: the time, the list of the other devices, what the operating system
-- gives, and what is not initialised. `fuel` is for the menu of the brightness.
pub record Surroundings : Type 0 where
  pub stale : Stale
  pub unset : Unset
  pub held : ℤ
  pub host : Host
  pub buf : Str
  pub num : ℤ
  pub info : Information
  pub cur_time : ℕ
  pub information_list : List Information
  pub fuel : ℕ

-- The schedule, the file of the brightness, what the light was told and the rows shown last.
pub record Study : Type 0 where
  pub session : Session
  pub bright : Disk
  pub told : List Told
  pub rows : List InfoLine

unfoldable pub run_bright_menu : Surroundings → Study → Outcome Study
run_bright_menu x w = do
  let console : Console = record { disk = w.bright; input = w.session.input; told = w.told }
  (ret, c) ← select_bright_menu x.fuel x.unset x.held x.host x.buf x.num console
  ok (record w { session = record w.session { input = c.input }; bright = c.disk; told = c.told })

-- The `switch` of `main`.
unfoldable pub do_main : Surroundings → ℤ → Study → Outcome Study
do_main x (pos (suc zero)) w = do s ← menu_sched x.stale w.session; ok (record w { session = s })
do_main x (pos (suc (suc zero))) w = run_bright_menu x w
do_main x (pos (suc (suc (suc zero)))) w = do
  (rows, r) ← print_other_infos x.cur_time x.info x.information_list w.session.input
  ok (record w { session = record w.session { input = r }; rows = rows })
do_main x sel w = ok w

-- Rounds of the `while` of `main`, which has no end of its own.
unfoldable pub main_rounds : List Surroundings → Study → Outcome Study
main_rounds [] w = ok w
main_rounds (x ∷ xs) w = do
  (sel, r) ← menu_sel w.session.input
  w' ← do_main x sel (record w { session = record w.session { input = r } })
  main_rounds xs w'
