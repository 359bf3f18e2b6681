-- ===== src/Tests/Network.antt =====
-- The devices in reach, their packets and the list of what they study.
use embedded_pg.Base.{
  true, ℕ, zero, suc, ◌≡◌, refl, inl, inr, false, some, List, [], ◌∷◌, ◌++◌, replicate, get_elem?,
  length, arith, All, ◌==◌,
}
use embedded_pg.Base.Int.{ℤ, pos, negsuc}
use embedded_pg.Base.Outcome.{ok, fault, ◌>>=◌}
use embedded_pg.Cstring.{Str, strcmp}
use embedded_pg.Parsebat.Reader.{chunk, Reader, buf_ok, isspace}
use embedded_pg.Parsebat.Flat.{stream}
use embedded_pg.Parsebat.Flat.Rows.{Device, IsDevice, listing, device_text, devices_text}
use embedded_pg.Devinfo.{
  DevInfo, device_1, device_4, mac2ip, find_ip, reading, Syscall, failed, getdevinfo,
}
use embedded_pg.Devinfo.Table.{IsIndexed, mac2ip-IsIndexed}
use embedded_pg.Devinfo.Found.{getdevinfo-finds, getdevinfo-unknown}
use embedded_pg.Comm.{Packet, Information, ByteOrder, c_string, pack_information, unpack_packet}
use embedded_pg.Comm.Packets.{pack_information-unpack_packet}
use embedded_pg.Receiver.{Arrival, receive, receive_all, print_other_infos, InfoLine}
use embedded_pg.Receiver.Listing.{fresh, said, studied, receive_all-print_other_infos}
use embedded_pg.Receiver.Slots.{IsPeer, IsSlot, told, receive-stored, receive-outside}
use embedded_pg.Terminal.{myflush, getch}
use embedded_pg.Tests.Data.{
  math, math_entry, art_entry, entries, disk, slots, session-Loads, aligned-entries,
}
use embedded_pg.Comm.{Interface, bat0, self_index_init, self_info}
use embedded_pg.Comm.Self.{self_index_init-finds, self_info-latest}
use embedded_pg.Schedule.Entry.{blank}
use embedded_pg.Schedule.Current.{LocalTime, nowtime, sched_time}
use embedded_pg.Stdio.{two_digits}
use embedded_pg.Devinfo.{ip2index}

-- 6 June 2017 at 15:45
abbrev pub afternoon : LocalTime
afternoon = record { year = 117; month = 5; mday = 6; hour = 15; minute = 45 }

mac2ip-IsIndexed_example : IsIndexed device_4.ip
unfolding mac2ip find_ip strcmp
mac2ip-IsIndexed_example = mac2ip-IsIndexed device_4.mac device_4.ip refl

-- A `syscall` that gives -1 for every error.
abbrev minus_one : ℤ → ℤ
minus_one (pos n) = pos n
minus_one (negsuc e) = negsuc 0

abbrev pub sys : Syscall
sys = record { returns = minus_one; on_success = λ n. refl; on_error = λ e. refl }

-- The line of a device with an address.
abbrev pub line : Str → Device
line mac = record {
  lead = b' ';
  indent = [];
  iface = b'w' ∷ [];
  gap = b' ' ∷ [];
  mac = mac;
  tail = b' ' ∷ [];
}

pub known_line : IsDevice (line device_1.mac)
unfolding isspace
known_line = record {
  indent_space = tt;
  iface_some = omega arith;
  iface_word = (refl, tt);
  gap_some = omega arith;
  gap_space = (refl, tt);
  mac_length = refl;
  mac_word = (
    refl,
    (
      refl,
      (
        refl,
        (
          refl,
          (
            refl,
            (
              refl,
              (
                refl,
                (refl, (refl, (refl, (refl, (refl, (refl, (refl, (refl, (refl, (refl, tt)))))))))),
              ),
            ),
          ),
        ),
      ),
    ),
  );
  tail_line = (refl, tt);
}

abbrev unknown_mac : Str
unknown_mac = replicate 17 b'f'

unknown_line : IsDevice (line unknown_mac)
unfolding isspace
unknown_line = record {
  indent_space = tt;
  iface_some = omega arith;
  iface_word = (refl, tt);
  gap_some = omega arith;
  gap_space = (refl, tt);
  mac_length = refl;
  mac_word = (
    refl,
    (
      refl,
      (
        refl,
        (
          refl,
          (
            refl,
            (
              refl,
              (
                refl,
                (refl, (refl, (refl, (refl, (refl, (refl, (refl, (refl, (refl, (refl, tt)))))))))),
              ),
            ),
          ),
        ),
      ),
    ),
  );
  tail_line = (refl, tt);
}

-- One read gives all that `batctl` prints.
abbrev pub prints : Str → Reader
prints mac = record {
  buf = [];
  bufsize = pos 0;
  offset = 0;
  state = buf_ok;
  fd = chunk (b'B' ∷ b'\n' ∷ b'I' ∷ b'\n' ∷ (b' ' ∷ b'w' ∷ b' ' ∷ (mac ++ b' ' ∷ b'\n' ∷ []))) ∷ [];
}

abbrev pub empty_slot : DevInfo
empty_slot = record { mac = []; ip = [] }

getdevinfo-finds_example :
    getdevinfo sys 256 (reading (prints device_1.mac)) (empty_slot ∷ empty_slot ∷ [])
    ≡ ok (record { ret = pos 1; devinfo = device_1 ∷ empty_slot ∷ [] })
unfolding stream listing devices_text device_text mac2ip find_ip strcmp
getdevinfo-finds_example =
    getdevinfo-finds sys 256 (prints device_1.mac) (b'B' ∷ []) (b'I' ∷ []) (line device_1.mac ∷ [])
      (refl, tt) (refl, tt) (known_line, tt) refl (empty_slot ∷ empty_slot ∷ []) (omega arith)
      (λ d. device_1.ip) (refl, tt)

getdevinfo-unknown_example :
    (a' : List DevInfo) × (getdevinfo sys 256 (reading (prints unknown_mac)) (empty_slot ∷ [])
      ≡ ok (failed a'))
unfolding stream listing devices_text device_text mac2ip find_ip strcmp
getdevinfo-unknown_example =
    getdevinfo-unknown sys 256 (prints unknown_mac) (b'B' ∷ []) (b'I' ∷ []) (line unknown_mac ∷ [])
      (refl, tt) (refl, tt) (unknown_line, tt) refl (empty_slot ∷ []) (omega arith)
      (λ d. device_1.ip) [] (line unknown_mac) [] refl tt refl

-- A machine whose order is that of the network.
abbrev pub order : ByteOrder
order = record { htonl = λ x. x; ntohl = λ x. x; ntohl-htonl = λ x h. refl }

abbrev pub nobody : Information
nobody = record { index = 0; time = 0; rx_time = 0; subject_name = [] }

abbrev studying : Information
studying = record { index = 2; time = 10; rx_time = 0; subject_name = math }

abbrev pub empty_packet : Packet
empty_packet = record { index = 0; time = 0; name = replicate 20 0 }

pack_information-unpack_packet_example :
    (pack_information order studying empty_packet >>= λ p. unpack_packet order p nobody)
    ≡ ok studying
pack_information-unpack_packet_example =
    pack_information-unpack_packet order studying empty_packet nobody
      (refl, (refl, (refl, (refl, tt)))) (omega arith)

-- The loopback, and the mesh interface behind it.
abbrev loopback : Interface
loopback = record { ifa_name = b'l' ∷ b'o' ∷ []; ifa_addr = some (true, b'1' ∷ []) }

self_index_init-finds_example :
    self_index_init
      (loopback ∷ record { ifa_name = bat0; ifa_addr = some (true, device_4.ip) } ∷ [])
    ≡ ok (some (pos 4))
unfolding ip2index strcmp
self_index_init-finds_example =
    self_index_init-finds (loopback ∷ []) device_4.ip [] (pos 4) ((true, b'1' ∷ [], refl, refl), tt)
      refl

self_info-latest_example :
    self_info 2 slots slots disk afternoon nobody ≡ ok (entries ++ blank ∷ blank ∷ [], studying)
unfolding strcmp nowtime two_digits sched_time
self_info-latest_example =
    self_info-latest 2 slots slots disk afternoon nobody entries [] math_entry (art_entry ∷ [])
      (session-Loads []) (session-Loads [])
      (
        record { date_full = refl; time_full = refl },
        (record { date_full = refl; time_full = refl }, tt),
      )
      aligned-entries refl (refl, tt)

-- What the second device sends, as it comes at the time 100.
abbrev arrival : Arrival
arrival = record {
  packet = record { index = 2; time = 10; name = math ++ replicate 16 0 };
  now = 100;
}

arrival-IsPeer : IsPeer arrival.packet
unfolding c_string
arrival-IsPeer = record { first = omega arith; last = omega arith; text = math; name = refl }

abbrev nothing_yet : List Information
nothing_yet = replicate 256 nobody

receive-stored_example :
    (l' : List Information) × (receive order arrival nobody (replicate 5 nobody)
      ≡ ok (told order arrival math, l'))
    × (length l' ≡ 5)
    × (get_elem? l' 2 ≡ some (told order arrival math))
    × ((j : ℕ) → (j == 2) ≡ false → get_elem? l' j ≡ get_elem? (replicate 5 nobody) j)
unfolding arrival-IsPeer
receive-stored_example =
    receive-stored order arrival nobody (replicate 5 nobody) arrival-IsPeer (omega arith)

abbrev stranger : Arrival
stranger = record arrival { packet = record arrival.packet { index = 7 } }

receive-outside_example : receive order stranger nobody nothing_yet ≡ fault
receive-outside_example = receive-outside order stranger nobody nothing_yet (inr (omega arith))

never : (n : ℕ) → All IsSlot (replicate n nobody)
never zero = tt
never (suc n) = (inl refl, never n)

receive_all-print_other_infos_example :
    (l' : List Information) × (rows : List InfoLine) × (receive_all order
        (arrival ∷ [])
        nobody
        nothing_yet
      ≡ ok l')
    × (print_other_infos 105 nobody l' (b'\n' ∷ b'x' ∷ []) ≡ ok (rows, []))
    × (said rows ≡ studied (fresh 105 l'))
unfolding myflush getch
receive_all-print_other_infos_example =
    receive_all-print_other_infos order (arrival ∷ []) nobody nobody nothing_yet 105
      (b'\n' ∷ b'x' ∷ []) (b'x' ∷ []) (arrival-IsPeer, tt) refl (never 256) (omega arith) refl
