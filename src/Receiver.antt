-- ===== src/Receiver.antt =====
-- `thr_receiver` of studysys/receiver.c, which puts the packets of the other devices on the list, and
-- `print_other_infos` of studysys/schedule.c, which shows the list. The socket calls are left out: a
-- packet and the time at which it comes are arguments.
pub mod Slots
pub mod Listing
use embedded_pg.Base.{ℕ, zero, suc, ◌+◌, Bool, true, false, List, [], ◌∷◌, ltb, if◌then◌else◌}
use embedded_pg.Base.Int.{ℤ, pos}
use embedded_pg.Base.Outcome.{Outcome, ok, fault, ◌>>=◌}
use embedded_pg.Cstring.{Str}
use embedded_pg.Devinfo.{index2ip}
use embedded_pg.Comm.{
  Packet, Information, ByteOrder, unpack_packet, update_infolist, get_other_info,
}
use embedded_pg.Terminal.{myflush, getch}

-- DEVINFO_MAX
abbrev pub devinfo_max : ℕ
devinfo_max = 256

-- A packet, and what `time(NULL)` gives when it has come.
pub record Arrival : Type 0 where
  pub packet : Packet
  pub now : ℕ

-- One round of the `while`: the address in the log is read whether or not the log is kept.
unfoldable pub receive :
    ByteOrder → Arrival → Information → List Information → Outcome (Information × List Information)
receive order arrival info information_list = do
  info1 ← unpack_packet order arrival.packet info
  ip ← index2ip (pos info1.index)
  let info2 = record info1 { rx_time = arrival.now }
  information_list' ← update_infolist info2 information_list
  ok (info2, information_list')

-- The rounds until `select` fails.
unfoldable pub receive_all :
    ByteOrder → List Arrival → Information → List Information → Outcome (List Information)
receive_all order [] info information_list = ok information_list
receive_all order (p ∷ ps) info information_list = do
  (info', information_list') ← receive order p info information_list
  receive_all order ps info' information_list'

-- A row of the listing; its first column is `n`, which stays 1.
pub record InfoLine : Type 0 where
  pub n : ℕ
  pub ip : Str
  pub subject_name : Str
  pub time : ℕ

-- The `for` from `i` on, with so many rounds left; `info` is what the round before has left.
unfoldable pub show_infos : ℕ → ℕ → ℕ → Information → List Information → Outcome (List InfoLine)
show_infos cur_time i zero info information_list = ok []
show_infos cur_time i (suc left) info information_list = do
  info' ← get_other_info (record info { index = i }) information_list
  rest ← show_infos cur_time (i + 1) left info' information_list
  elim (ltb (info'.rx_time + 10) cur_time) [
    | true ↦ ok rest
    | false ↦ do
      ip ← index2ip (pos info'.index)
      ok (record { n = 1; ip = ip; subject_name = info'.subject_name; time = info'.time } ∷ rest)
  ]

-- The rows, and the input after the key.
unfoldable pub print_other_infos :
    ℕ → Information → List Information → Str → Outcome (List InfoLine × Str)
print_other_infos cur_time info information_list input = do
  rows ← show_infos cur_time 0 devinfo_max info information_list
  r ← myflush input
  ok (rows, getch r)
