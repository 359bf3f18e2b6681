-- ===== src/Tests/Mesh.antt =====
-- The second device tells a device in reach what is studied.
use embedded_pg.Base.{
  ℕ, ◌≡◌, refl, sym, ap, ◌∙◌, false, some, List, [], ◌∷◌, ◌++◌, get_elem?, replicate, drop, arith,
  ◌==◌,
}
use embedded_pg.Base.Int.{pos}
use embedded_pg.Base.Outcome.{ok}
use embedded_pg.Cstring.{strcmp}
use embedded_pg.Stdio.{two_digits}
use embedded_pg.Schedule.File.{txt_read}
use embedded_pg.Schedule.Loads.{loads-txt_read}
use embedded_pg.Schedule.Current.{nowtime, sched_time, cur_subject}
use embedded_pg.Schedule.Current.Laws.{cur_subject-latest}
use embedded_pg.Parsebat.Flat.{stream}
use embedded_pg.Parsebat.Flat.Rows.{listing, device_text, devices_text}
use embedded_pg.Devinfo.{device_1, mac2ip, find_ip, reading, Got, getdevinfo}
use embedded_pg.Devinfo.Found.{getdevinfo-finds}
use embedded_pg.Comm.{Packet, Information}
use embedded_pg.Receiver.{receive}
use embedded_pg.Recognizer.{Device, Recognizer, Turn, sends, recognize}
use embedded_pg.Recognizer.Delivery.{heard, recognize-receive}
use embedded_pg.Tests.Data.{
  math, math_entry, art_entry, entries, disk, slots, session-Loads, aligned-entries,
}
use embedded_pg.Tests.Network.{
  sys, prints, line, known_line, empty_slot, order, nobody, afternoon, empty_packet,
}

abbrev second : Device
second = record { sys = sys; order = order; self_idx = 2; tmp_sched = slots }

abbrev idle : Recognizer
idle = record {
  delay_time = 1;
  retrieve_time = 98;
  devinfos = empty_slot ∷ empty_slot ∷ [];
  scheds = slots;
  info = nobody;
  packet = empty_packet;
}

abbrev turn : Turn
turn = record {
  tested = 99;
  now = 99;
  start = reading (prints device_1.mac);
  disk = disk;
  tm = afternoon;
}

abbrev got : Got
got = record { ret = pos 1; devinfo = device_1 ∷ empty_slot ∷ [] }

one_found :
    getdevinfo sys 256 (reading (prints device_1.mac)) (empty_slot ∷ empty_slot ∷ []) ≡ ok got
unfolding stream listing devices_text device_text mac2ip find_ip strcmp
one_found =
    getdevinfo-finds sys 256 (prints device_1.mac) (b'B' ∷ []) (b'I' ∷ []) (line device_1.mac ∷ [])
      (refl, tt) (refl, tt) (known_line, tt) refl (empty_slot ∷ empty_slot ∷ []) (omega arith)
      (λ d. device_1.ip) (refl, tt)

read : txt_read slots disk ≡ ok (entries ++ drop 2 slots, some 2)
read =
    let loads = session-Loads [] in
    loads-txt_read slots disk entries loads ∙ ap (λ x. ok (entries ++ x, some 2)) (sym loads.slots)

math_now : cur_subject slots (some 2) disk afternoon ≡ ok math
unfolding strcmp nowtime two_digits sched_time
math_now =
    cur_subject-latest slots disk entries (session-Loads []) afternoon [] math_entry
      (art_entry ∷ [])
      (
        record { date_full = refl; time_full = refl },
        (record { date_full = refl; time_full = refl }, tt),
      )
      aligned-entries refl (refl, tt)

recognize-receive_example :
    (w' : Recognizer) × (p : Packet) × (l' : List Information) × (recognize second turn idle
      ≡ ok (w', sends ((device_1.ip, p) ∷ [])))
    × (w'.retrieve_time ≡ 99)
    × (receive order (record { packet = p; now = 100 }) nobody (replicate 5 nobody)
        ≡ ok (heard 2 math 100, l'))
    × (get_elem? l' 2 ≡ some (heard 2 math 100))
    × ((j : ℕ) → (j == 2) ≡ false → get_elem? l' j ≡ get_elem? (replicate 5 nobody) j)
recognize-receive_example =
    recognize-receive second turn idle got 1 math (entries ++ drop 2 slots) (some 2) (omega arith)
      one_found refl (omega arith) read math_now (omega arith) (refl, (refl, (refl, (refl, tt))))
      (omega arith) (omega arith) nobody (replicate 5 nobody) 100 (omega arith)
