-- ===== src/Recognizer.antt =====
-- `thr_recognizer` of studysys/recognizer.c, which tells the devices in reach what is studied here.
-- The socket calls are left out: what is sent is kept, each packet with the address that it is for.
pub mod Delivery
use embedded_pg.Base.{ℕ, zero, suc, ◌+◌, Bool, true, false, Option, none, some, List, [], ◌∷◌, ltb}
use embedded_pg.Base.Int.{ℤ, pos, negsuc}
use embedded_pg.Base.Outcome.{Outcome, ok, fault, ◌>>=◌}
use embedded_pg.Cstring.{Str}
use embedded_pg.Schedule.Entry.{Entry}
use embedded_pg.Schedule.File.{Disk}
use embedded_pg.Schedule.Current.{LocalTime}
use embedded_pg.Devinfo.{DevInfo, Start, Syscall, Got, getdevinfo}
use embedded_pg.Receiver.{devinfo_max}
use embedded_pg.Comm.{Packet, Information, ByteOrder, pack_information, self_info}

-- What does not change: the library, the index of the device and the array of `cur_subject`.
pub record Device : Type 0 where
  pub sys : Syscall
  pub order : ByteOrder
  pub self_idx : ℕ
  pub tmp_sched : List Entry

-- The variables of the thread, `delay_time` and `devinfos`, and the array of `self_info`.
pub record Recognizer : Type 0 where
  pub delay_time : ℕ
  pub retrieve_time : ℕ
  pub devinfos : List DevInfo
  pub scheds : List Entry
  pub info : Information
  pub packet : Packet

-- A round: what the clock gives at the test and after it, how far the call of `batctl` comes, the
-- file of the schedule and the time of day.
pub record Turn : Type 0 where
  pub tested : ℕ
  pub now : ℕ
  pub start : Start
  pub disk : Disk
  pub tm : LocalTime

-- It is too early, packets are sent, or the thread ends.
pub data Turned : Type 0 where
  waits ends : Turned
  sends : List (Str × Packet) → Turned

-- The `for` that sends the packet to the first devices.
unfoldable pub broadcast : ℕ → Packet → List DevInfo → Outcome (List (Str × Packet))
broadcast zero packet l = ok []
broadcast (suc n) packet [] = fault
broadcast (suc n) packet (d ∷ l) = do rest ← broadcast n packet l; ok ((d.ip, packet) ∷ rest)

-- From `self_info` on, with so many devices found.
unfoldable pub announce : Device → Turn → ℕ → Recognizer → Outcome (Recognizer × Turned)
announce dev turn ndev w = do
  (scheds, info) ← self_info dev.self_idx w.scheds dev.tmp_sched turn.disk turn.tm w.info
  packet ← pack_information dev.order info w.packet
  sent ← broadcast ndev packet w.devinfos
  ok (record w { scheds = scheds; info = info; packet = packet }, sends sent)

unfoldable pub after_getdevinfo : Device → Turn → Got → Recognizer → Outcome (Recognizer × Turned)
after_getdevinfo dev turn got w = elim got.ret [
  | negsuc e ↦ ok (record w { devinfos = got.devinfo }, ends)
  | pos ndev ↦ announce dev turn ndev (record w { devinfos = got.devinfo })
]

-- A round of the `for`.
unfoldable pub recognize : Device → Turn → Recognizer → Outcome (Recognizer × Turned)
recognize dev turn w = elim (ltb turn.tested (w.retrieve_time + w.delay_time)) [
  | true ↦ ok (w, waits)
  | false ↦ do
    got ← getdevinfo dev.sys devinfo_max turn.start w.devinfos
    after_getdevinfo dev turn got (record w { retrieve_time = turn.now })
]

unfoldable pub set_delay_time : ℕ → Recognizer → Recognizer
set_delay_time t w = record w { delay_time = t }
