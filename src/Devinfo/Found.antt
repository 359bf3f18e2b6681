-- ===== src/Devinfo/Found.antt =====
-- What `getdevinfo` finds when `batctl` lists devices.
use embedded_pg.Base.{
  ℕ, zero, suc, ◌≤◌, ◌≡◌, refl, ap, ap₂, subst, ◌∙◌, true, false, none, some, List, [], ◌∷◌, ◌++◌,
  length, take, drop, map, All, arith,
}
use embedded_pg.Base.Int.{pos}
use embedded_pg.Base.Outcome.{ok}
use embedded_pg.Cstring.{Str}
use embedded_pg.Parsebat.Reader.{Reader}
use embedded_pg.Parsebat.Parse.{parsebat}
use embedded_pg.Parsebat.Flat.{at_eof, stream}
use embedded_pg.Parsebat.Flat.Rows.{Device, IsDevice, OneLine, listing, least, parsebat-listing}
use embedded_pg.Devinfo.{
  DevInfo, mac2ip, reading, Syscall, store_macs, fill_ips, failed, finish_getdevinfo, getdevinfo,
}

-- The device as `getdevinfo` stores it.
abbrev pub with_ip : (Device → Str) → Device → DevInfo
with_ip ip d = record { mac = d.mac; ip = ip d }

abbrev pub macs_of : List Device → List Str
macs_of = map (λ d. d.mac)

-- The slots with the addresses stored, whatever their IP addresses are.
unfoldable stored : List Device → List DevInfo → List DevInfo
stored [] a = a
stored (d ∷ l) [] = []
stored (d ∷ l) (s ∷ a) = record s { mac = d.mac } ∷ stored l a

store_macs-eq :
    (l : List Device) (a : List DevInfo)
    → length l ≤ length a
    → store_macs (macs_of l) a ≡ ok (stored l a)
unfolding store_macs stored
store_macs-eq [] a h = refl
store_macs-eq (d ∷ l) [] h = absurd (omega arith)
store_macs-eq (d ∷ l) (s ∷ a) h = rw (store_macs-eq l a (omega arith))

abbrev pub Knows : (Device → Str) → List Device → Type 0
Knows ip = All (λ d. mac2ip d.mac ≡ some (ip d))

fill_ips-eq :
    (ip : Device → Str) (l : List Device) (a : List DevInfo)
    → length l ≤ length a
    → Knows ip l
    → fill_ips (length l) (stored l a) ≡ ok (true, map (with_ip ip) l ++ drop (length l) a)
unfolding fill_ips stored
fill_ips-eq ip [] a h k = refl
fill_ips-eq ip (d ∷ l) [] h k = absurd (omega arith)
fill_ips-eq ip (d ∷ l) (s ∷ a) h k = rw (k.0, fill_ips) (rw (fill_ips-eq ip l a (omega arith) k.1))

-- One device has an address that the table does not list.
fill_ips-unknown :
    (ip : Device → Str) (pre : List Device) (d : Device) (post : List Device) (a : List DevInfo)
    → length (pre ++ d ∷ post) ≤ length a
    → Knows ip pre
    → mac2ip d.mac ≡ none
    → (a' : List DevInfo) × (fill_ips (length (pre ++ d ∷ post)) (stored (pre ++ d ∷ post) a)
        ≡ ok (false, a'))
unfolding fill_ips stored
fill_ips-unknown ip [] d post [] h k u = absurd (omega arith)
fill_ips-unknown ip [] d post (s ∷ a) h k u =
    (record s { mac = d.mac } ∷ stored post a, rw (u, fill_ips) refl)
fill_ips-unknown ip (x ∷ pre) d post [] h k u = absurd (omega arith)
fill_ips-unknown ip (x ∷ pre) d post (s ∷ a) h k u =
    let (a', e) = fill_ips-unknown ip pre d post a (omega arith) k.1 u in
    (record s { mac = x.mac; ip = ip x } ∷ a', rw (k.0, fill_ips) (rw e))

take-macs_of : (n : ℕ) (l : List Device) → take n (macs_of l) ≡ macs_of (take n l)
take-macs_of zero l = refl
take-macs_of (suc n) [] = refl
take-macs_of (suc n) (d ∷ l) = ap (◌∷◌ d.mac) (take-macs_of n l)

length-take : (n : ℕ) (l : List Device) → least n (length l) ≡ length (take n l)
length-take zero l = refl
length-take (suc n) [] = refl
length-take (suc n) (d ∷ l) = ap suc (length-take n l)

module _ (sys : Syscall) (maxdev : ℕ) (r : Reader) (header columns : Str) (l : List Device)
    (header_line : OneLine header) (columns_line : OneLine columns) (lines : All IsDevice l)
    (printed : stream r.fd ≡ (listing header columns l, at_eof)) (a : List DevInfo)
    (room : length (take maxdev l) ≤ length a) where
  parsed :
      parsebat maxdev r
      ≡ ok (record { ndev = pos (length (take maxdev l)); macs = macs_of (take maxdev l) })
  parsed =
      parsebat-listing maxdev r header columns l header_line columns_line lines printed
      ∙ ap₂ (λ n m. ok (record { ndev = pos n; macs = m })) (length-take maxdev l)
          (take-macs_of maxdev l)

  reach :
      getdevinfo sys maxdev (reading r) a
      ≡ finish_getdevinfo (pos (length (take maxdev l))) (stored (take maxdev l) a)
  unfolding getdevinfo
  reach =
      rw parsed
        (rw (store_macs-eq (take maxdev l) a room) (rw (sys.on_success (length (take maxdev l)))))

  -- If the reads give together what `batctl n` prints, the array has room for the first `maxdev`
  -- devices and their addresses are in the table, `getdevinfo` returns the number of these devices
  -- and stores each with its IP address, in order; the slots behind them stay.
  pub getdevinfo-finds :
      (ip : Device → Str)
      → Knows ip (take maxdev l)
      → getdevinfo sys maxdev (reading r) a
        ≡ ok (record {
          ret = pos (length (take maxdev l));
          devinfo = map (with_ip ip) (take maxdev l) ++ drop (length (take maxdev l)) a;
        })
  unfolding finish_getdevinfo
  getdevinfo-finds ip k = reach ∙ rw (fill_ips-eq ip (take maxdev l) a room k)

  -- If the reads give together what `batctl n` prints, the array has room for the first `maxdev`
  -- devices and one of these is not in the table, `getdevinfo` returns -1, whatever the devices
  -- behind it are.
  pub getdevinfo-unknown :
      (ip : Device → Str) (pre : List Device) (d : Device) (post : List Device)
      → take maxdev l ≡ pre ++ d ∷ post
      → Knows ip pre
      → mac2ip d.mac ≡ none
      → (a' : List DevInfo) × (getdevinfo sys maxdev (reading r) a ≡ ok (failed a'))
  unfolding finish_getdevinfo
  getdevinfo-unknown ip pre d post split k u =
      let fits : length (pre ++ d ∷ post) ≤ length a =
        subst (λ x. length x ≤ length a) split room in
      let (a', e) = fill_ips-unknown ip pre d post a fits k u in
      (a', reach ∙ ap (λ x. finish_getdevinfo (pos (length x)) (stored x a)) split ∙ rw e)
