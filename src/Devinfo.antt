-- ===== src/Devinfo.antt =====
-- studysys/devinfo.c: the table of addresses and `getdevinfo`, which asks `batctl` for the devices in
-- reach. What `batctl` prints, and what `pipe`, `fork`, `dup2` and `execv` do, is an argument; so is
-- `syscall` of the C library, with what is documented of it.
pub mod Table
pub mod Found
use embedded_pg.Base.{
  ℕ, zero, suc, ◌+◌, ◌-◌, ◌≡◌, Bool, true, false, Option, none, some, List, [], ◌∷◌, ◌++◌, length,
  get_elem?, leb, if◌then◌else◌,
}
use embedded_pg.Base.Int.{ℤ, pos, negsuc}
use embedded_pg.Base.Outcome.{Outcome, ok, fault, ◌>>=◌}
use embedded_pg.Cstring.{Str, same}
use embedded_pg.Parsebat.Reader.{Reader}
use embedded_pg.Parsebat.Parse.{Parsed, parsebat}

-- `struct devinfo` of kernel/parsebat.h
pub record DevInfo : Type 0 where
  pub mac : Str
  pub ip : Str

abbrev pub device_1 : DevInfo
device_1 = record {
  mac =
      b'9' ∷ b'0' ∷ b':' ∷ b'9' ∷ b'f' ∷ b':' ∷ b'3' ∷ b'3' ∷ b':' ∷ b'e' ∷ b'c' ∷ b':' ∷ b'0'
      ∷ b'4' ∷ b':' ∷ b'8' ∷ b'a' ∷ [];
  ip = b'1' ∷ b'9' ∷ b'2' ∷ b'.' ∷ b'1' ∷ b'6' ∷ b'8' ∷ b'.' ∷ b'2' ∷ b'.' ∷ b'1' ∷ [];
}

abbrev pub device_2 : DevInfo
device_2 = record {
  mac =
      b'9' ∷ b'0' ∷ b':' ∷ b'9' ∷ b'f' ∷ b':' ∷ b'3' ∷ b'3' ∷ b':' ∷ b'e' ∷ b'b' ∷ b':' ∷ b'6'
      ∷ b'3' ∷ b':' ∷ b'e' ∷ b'9' ∷ [];
  ip = b'1' ∷ b'9' ∷ b'2' ∷ b'.' ∷ b'1' ∷ b'6' ∷ b'8' ∷ b'.' ∷ b'2' ∷ b'.' ∷ b'2' ∷ [];
}

abbrev pub device_3 : DevInfo
device_3 = record {
  mac =
      b'b' ∷ b'8' ∷ b':' ∷ b'2' ∷ b'7' ∷ b':' ∷ b'e' ∷ b'b' ∷ b':' ∷ b'1' ∷ b'2' ∷ b':' ∷ b'c'
      ∷ b'a' ∷ b':' ∷ b'e' ∷ b'0' ∷ [];
  ip = b'1' ∷ b'9' ∷ b'2' ∷ b'.' ∷ b'1' ∷ b'6' ∷ b'8' ∷ b'.' ∷ b'2' ∷ b'.' ∷ b'3' ∷ [];
}

abbrev pub device_4 : DevInfo
device_4 = record {
  mac =
      b'6' ∷ b'4' ∷ b':' ∷ b'e' ∷ b'5' ∷ b':' ∷ b'9' ∷ b'9' ∷ b':' ∷ b'f' ∷ b'a' ∷ b':' ∷ b'1'
      ∷ b'd' ∷ b':' ∷ b'6' ∷ b'1' ∷ [];
  ip = b'1' ∷ b'9' ∷ b'2' ∷ b'.' ∷ b'1' ∷ b'6' ∷ b'8' ∷ b'.' ∷ b'2' ∷ b'.' ∷ b'4' ∷ [];
}

abbrev pub arptbl : List DevInfo
arptbl = device_1 ∷ device_2 ∷ device_3 ∷ device_4 ∷ []

-- the `for` of `mac2ip` over a table
unfoldable pub find_ip : Str → List DevInfo → Option Str
find_ip mac [] = none
find_ip mac (d ∷ l) = if same mac d.mac then some d.ip else find_ip mac l

unfoldable pub mac2ip : Str → Option Str
unfolding find_ip
mac2ip mac = find_ip mac arptbl

abbrev pub at_index : Option DevInfo → Outcome Str
at_index none = fault
at_index (some d) = ok d.ip

-- `arptbl[id - 1].ip`, with no check of the index
unfoldable pub index2ip : ℤ → Outcome Str
index2ip (pos zero) = fault
index2ip (pos (suc i)) = at_index (get_elem? arptbl i)
index2ip (negsuc n) = fault

-- `c - '0'`
abbrev pub digit : ℕ → ℤ
digit c = if leb b'0' c then pos (c - b'0') else negsuc (47 - c)

-- The last byte; an empty string is read before its start.
unfoldable pub ip2index : Str → Outcome ℤ
ip2index [] = fault
ip2index (c ∷ []) = ok (digit c)
ip2index (c ∷ d ∷ s) = ip2index (d ∷ s)

-- Which of the calls before `parsebat` fails, or that the parent reads from the pipe. `dup2` and
-- `execv` are the child's, and where one of them fails it returns from `getdevinfo` too; its parent
-- reads all the same.
pub data Start : Type 0 where
  no_pipe no_fork no_dup2 no_execv : Start
  reading : Reader → Start

-- `syscall` of the C library, on what the kernel returns: no error number comes through.
pub record Syscall : Type 0 where
  pub returns : ℤ → ℤ
  pub on_success : (n : ℕ) → returns (pos n) ≡ pos n
  pub on_error : (e : ℕ) → returns (negsuc e) ≡ negsuc 0

-- The addresses that `parsebat` stores.
unfoldable pub store_macs : List Str → List DevInfo → Outcome (List DevInfo)
store_macs [] a = ok a
store_macs (m ∷ ms) [] = fault
store_macs (m ∷ ms) (d ∷ a) = do a' ← store_macs ms a; ok (record d { mac = m } ∷ a')

-- The last `for`: whether all addresses are known, and the array after it.
unfoldable pub fill_ips : ℕ → List DevInfo → Outcome (Bool × List DevInfo)
fill_ips zero a = ok (true, a)
fill_ips (suc n) [] = fault
fill_ips (suc n) (d ∷ a) = elim (mac2ip d.mac) [
  | none ↦ ok (false, d ∷ a)
  | some ip ↦ do (known, a') ← fill_ips n a; ok (known, record d { ip = ip } ∷ a')
]

-- What is returned, and the array after it.
pub record Got : Type 0 where
  pub ret : ℤ
  pub devinfo : List DevInfo

abbrev pub failed : List DevInfo → Got
failed a = record { ret = negsuc 0; devinfo = a }

unfoldable pub finish_getdevinfo : ℤ → List DevInfo → Outcome Got
finish_getdevinfo (negsuc e) a = ok (failed a)
finish_getdevinfo (pos n) a = do
  (known, a') ← fill_ips n a
  ok (record { ret = if known then pos n else negsuc 0; devinfo = a' })

unfoldable pub getdevinfo : Syscall → ℕ → Start → List DevInfo → Outcome Got
getdevinfo sys maxdev no_pipe a = ok (failed a)
getdevinfo sys maxdev no_fork a = ok (failed a)
getdevinfo sys maxdev no_dup2 a = ok (failed a)
getdevinfo sys maxdev no_execv a = ok (failed a)
getdevinfo sys maxdev (reading r) a = do
  p ← parsebat maxdev r
  a' ← store_macs p.macs a
  finish_getdevinfo (sys.returns p.ndev) a'
