-- ===== src/Comm/Self.antt =====
-- Who this device is, and what it says of itself.
use embedded_pg.Base.{
  ℕ, ◌≡◌, refl, sym, ap, Bool, true, false, ◌&&◌, some, List, [], ◌∷◌, ◌++◌, length, drop, All,
}
use embedded_pg.Base.Int.{ℤ}
use embedded_pg.Base.Outcome.{ok}
use embedded_pg.Cstring.{Str, same, strcmp}
use embedded_pg.Schedule.Entry.{Entry}
use embedded_pg.Schedule.Align.Laws.{aligned}
use embedded_pg.Schedule.File.{Disk}
use embedded_pg.Schedule.Loads.{Loads, loads-txt_read}
use embedded_pg.Schedule.Current.{LocalTime, nowtime}
use embedded_pg.Schedule.Current.Laws.{IsFull, IsFuture, IsPast, cur_subject-latest}
use embedded_pg.Devinfo.{ip2index}
use embedded_pg.Comm.{Information, self_info, Interface, bat0, self_index_init}

-- The interface has an address, but it is not of AF_INET or not that of bat0.
abbrev pub IsOther : Interface → Type 0
IsOther ifa =
    (inet : Bool) × (addr : Str) × (ifa.ifa_addr ≡ some (inet, addr))
    × ((inet && same ifa.ifa_name bat0) ≡ false)

-- If every interface before the first AF_INET one that is named bat0 has an address, the device's
-- index is the last digit of that one's address.
pub self_index_init-finds :
    (pre : List Interface) (addr : Str) (post : List Interface) (i : ℤ)
    → All IsOther pre
    → ip2index addr ≡ ok i
    → self_index_init (pre ++ record { ifa_name = bat0; ifa_addr = some (true, addr) } ∷ post)
      ≡ ok (some i)
unfolding self_index_init strcmp
self_index_init-finds [] addr post i h e = rw (e, self_index_init) refl
self_index_init-finds (x ∷ pre) addr post i h e =
    let (inet, other, f, g) = h.0 in
    rw (f, self_index_init) (rw g (self_index_init-finds pre addr post i h.1 e))

-- On a file that loads into both arrays, whose rows have dates of six bytes and times of four, the
-- device tells its index and the subject of the last entry, in order, that is not to begin after
-- now, with the time 10.
pub self_info-latest :
    (self_idx : ℕ) (scheds tmp_sched : List Entry) (disk : Disk) (tm : LocalTime)
    (info : Information) (l pre : List Entry) (e : Entry) (post : List Entry)
    (read : Loads scheds disk l) (read_again : Loads tmp_sched disk l)
    → All IsFull l
    → aligned l ≡ pre ++ e ∷ post
    → IsPast (nowtime tm) e
    → All (IsFuture (nowtime tm)) post
    → self_info self_idx scheds tmp_sched disk tm info
      ≡ ok (
        l ++ drop (length l) scheds,
        record info { index = self_idx; subject_name = e.name_sub; time = 10 },
      )
unfolding self_info
self_info-latest self_idx scheds tmp_sched disk tm info l pre e post read read_again full split p
      f =
    let told : Information = record info {
      index = self_idx;
      subject_name = e.name_sub;
      time = 10;
    } in
    rw (loads-txt_read scheds disk l read) (
      rw (cur_subject-latest tmp_sched disk l read_again tm pre e post full split p f)
        (ap (λ (x : List Entry). ok (l ++ x, told)) (sym read.slots)))
