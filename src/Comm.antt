-- ===== src/Comm.antt =====
-- studysys/comm.c: the packets, the list of what the other devices study, and who this device is.
-- The times are not negative. `htonl` and `ntohl`, and the interfaces that `getifaddrs` lists, are
-- arguments.
pub mod Packets
pub mod Self
pub mod Init
use embedded_pg.Base.{
  ℕ, zero, suc, ◌+◌, ◌%◌, ◌^◌, ◌<◌, ◌≡◌, Bool, true, false, ◌&&◌, Option, none, some, List, [], ◌∷◌,
  ◌++◌, length, drop, get_elem?, ltb, ◌==◌, if◌then◌else◌,
}
use embedded_pg.Base.Arrays.{set_elem}
use embedded_pg.Base.Int.{ℤ}
use embedded_pg.Base.Outcome.{Outcome, ok, fault, ◌>>=◌}
use embedded_pg.Cstring.{Str, same}
use embedded_pg.Schedule.Entry.{Entry}
use embedded_pg.Schedule.File.{Disk, txt_read}
use embedded_pg.Schedule.Current.{LocalTime, cur_subject}
use embedded_pg.Devinfo.{ip2index}

-- `name` is the whole array, with what stands behind its NUL.
pub record Packet : Type 0 where
  pub index : ℕ
  pub time : ℕ
  pub name : Str

pub record Information : Type 0 where
  pub index : ℕ
  pub time : ℕ
  pub rx_time : ℕ
  pub subject_name : Str

-- `htonl` and `ntohl` of the C library, on numbers of 32 bits.
pub record ByteOrder : Type 0 where
  pub htonl : ℕ → ℕ
  pub ntohl : ℕ → ℕ
  pub ntohl-htonl : (x : ℕ) → x < 2 ^ 32 → ntohl (htonl x) ≡ x

-- The string in an array, if a NUL ends it there.
unfoldable pub c_string : Str → Option Str
c_string [] = none
c_string (c ∷ s) =
    if c == 0 then some [] else (elim (c_string s) [ none ↦ none | some t ↦ some (c ∷ t) ])

-- `strcpy` of a string into an array: the array after it.
unfoldable pub strcpy : Str → Str → Outcome Str
strcpy dst src =
    if ltb (length src) (length dst) then ok (src ++ 0 ∷ drop (suc (length src)) dst) else fault

unfoldable pub unpack_packet : ByteOrder → Packet → Information → Outcome Information
unpack_packet order packet info = elim (c_string packet.name) [
  | none ↦ fault
  | some name ↦
      ok (record info { index = packet.index; time = order.ntohl packet.time; subject_name = name })
]

-- The index goes into 8 bits and the time into 32.
unfoldable pub pack_information : ByteOrder → Information → Packet → Outcome Packet
pack_information order info packet = do
  name ← strcpy packet.name info.subject_name
  ok (record { index = info.index % 2 ^ 8; time = order.htonl (info.time % 2 ^ 32); name = name })

-- `information_list[index] = *info`
unfoldable pub update_infolist : Information → List Information → Outcome (List Information)
update_infolist info information_list = set_elem information_list info.index info

-- `*info = information_list[index]`
unfoldable pub get_other_info : Information → List Information → Outcome Information
get_other_info info information_list = elim (get_elem? information_list info.index) [
  | none ↦ fault
  | some x ↦ ok x
]

-- What `self_info` makes of its static array and of `info`. The time is that of a build without
-- CONFIG_ULTRASONIC, which no Makefile defines.
unfoldable pub self_info :
    ℕ
    → List Entry
    → List Entry
    → Disk
    → LocalTime
    → Information
    → Outcome (List Entry × Information)
self_info self_idx scheds tmp_sched disk tm info = do
  (scheds', nsched) ← txt_read scheds disk
  name ← cur_subject tmp_sched nsched disk tm
  ok (scheds', record info { index = self_idx; subject_name = name; time = 10 })

-- An interface as `getifaddrs` lists it: whether its address is of AF_INET, and the text of that.
-- An interface need not have an address.
pub record Interface : Type 0 where
  pub ifa_name : Str
  pub ifa_addr : Option (Bool × Str)

-- "bat0"
abbrev pub bat0 : Str
bat0 = b'b' ∷ b'a' ∷ b't' ∷ b'0' ∷ []

-- The index of the device, or `none` for -1. The address is looked at before it is known to be there.
unfoldable pub self_index_init : List Interface → Outcome (Option ℤ)
self_index_init [] = ok none
self_index_init (ifa ∷ ifap) =
    let rest = self_index_init ifap in
    elim ifa.ifa_addr [
      | none ↦ fault
      | some (inet, addr) ↦
          if inet && same ifa.ifa_name bat0 then (do i ← ip2index addr; ok (some i)) else rest
    ]
