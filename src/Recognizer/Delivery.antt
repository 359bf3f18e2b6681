-- ===== src/Recognizer/Delivery.antt =====
-- What one device's `thr_recognizer` sends, another's `thr_receiver` puts on its list.
use embedded_pg.Base.{
  ℕ, zero, suc, ◌+◌, ◌≤◌, ◌<◌, ◌≡◌, refl, sym, ap, ◌∙◌, subst, false, Option, some, List, [], ◌∷◌,
  ◌++◌, map, take, drop, length, get_elem?, ltb, ◌==◌, ◌%◌, ◌^◌, arith,
}
use embedded_pg.Base.Int.{pos}
use embedded_pg.Base.Outcome.{ok}
use embedded_pg.Cstring.{Str}
use embedded_pg.Schedule.Entry.{Entry}
use embedded_pg.Schedule.File.{txt_read}
use embedded_pg.Schedule.Current.{cur_subject}
use embedded_pg.Devinfo.{DevInfo, Got, getdevinfo}
use embedded_pg.Comm.{Packet, Information, self_info}
use embedded_pg.Comm.Packets.{NoNul, c_string-append, pack-eq, bounded}
use embedded_pg.Receiver.{devinfo_max, Arrival, receive}
use embedded_pg.Receiver.Slots.{IsPeer, told, receive-stored}
use embedded_pg.Recognizer.{
  Device, Recognizer, Turn, sends, broadcast, announce, after_getdevinfo, recognize,
}

broadcast-take :
    (n : ℕ) (p : Packet) (l : List DevInfo)
    → n ≤ length l
    → broadcast n p l ≡ ok (map (λ d. (d.ip, p)) (take n l))
unfolding broadcast
broadcast-take zero p l h = refl
broadcast-take (suc n) p [] h = absurd (omega arith)
broadcast-take (suc n) p (d ∷ l) h = rw (broadcast-take n p l (omega arith)) refl

module _ (dev : Device) (turn : Turn) (w : Recognizer) (got : Got) (ndev : ℕ) (name : Str)
    (scheds : List Entry) (nsched : Option ℕ) where
  -- What the device says of itself.
  abbrev pub own_info : Information
  own_info = record w.info { index = dev.self_idx; subject_name = name; time = 10 }

  abbrev pub own_packet : Packet
  own_packet = record {
    index = dev.self_idx % 2 ^ 8;
    time = dev.order.htonl (10 % 2 ^ 32);
    name = name ++ 0 ∷ drop (suc (length name)) w.packet.name;
  }

  announce-sends :
      txt_read w.scheds turn.disk ≡ ok (scheds, nsched)
      → cur_subject dev.tmp_sched nsched turn.disk turn.tm ≡ ok name
      → length name < length w.packet.name
      → ndev ≤ length w.devinfos
      → announce dev turn ndev w
        ≡ ok (
          record w { scheds = scheds; info = own_info; packet = own_packet },
          sends (map (λ d. (d.ip, own_packet)) (take ndev w.devinfos)),
        )
  unfolding announce self_info
  announce-sends f g h k = rw f (
      rw g (
        rw (pack-eq dev.order own_info w.packet h)
          (rw (broadcast-take ndev own_packet w.devinfos k) refl)))

-- What another device makes of the packet when it comes.
abbrev pub heard : ℕ → Str → ℕ → Information
heard self_idx name now = record { index = self_idx; time = 10; rx_time = now; subject_name = name }

module _ (dev : Device) (turn : Turn) (w : Recognizer) (got : Got) (ndev : ℕ) (name : Str)
    (scheds : List Entry) (nsched : Option ℕ) (late : w.retrieve_time + w.delay_time ≤ turn.tested)
    (found : getdevinfo dev.sys devinfo_max turn.start w.devinfos ≡ ok got)
    (count : got.ret ≡ pos ndev) (filled : ndev ≤ length got.devinfo)
    (read : txt_read w.scheds turn.disk ≡ ok (scheds, nsched))
    (subject : cur_subject dev.tmp_sched nsched turn.disk turn.tm ≡ ok name)
    (room : length name < length w.packet.name) where
  asked : Recognizer
  asked = record w { retrieve_time = turn.now; devinfos = got.devinfo }

  packet : Packet
  packet = own_packet dev turn asked got ndev name scheds nsched

  after : Recognizer
  after = record asked {
    scheds = scheds;
    info = own_info dev turn asked got ndev name scheds nsched;
    packet = packet;
  }

  recognize-sends :
      recognize dev turn w ≡ ok (after, sends (map (λ d. (d.ip, packet)) (take ndev got.devinfo)))
  unfolding recognize after_getdevinfo after packet asked
  recognize-sends =
      let due : ltb turn.tested (w.retrieve_time + w.delay_time) ≡ false = ground (arith, late) in
      rw (due, recognize)
        (rw found (
          rw (count, after_getdevinfo)
            (announce-sends dev turn asked got ndev name scheds nsched read subject room filled)))

  module _ (word : NoNul name) (first : 1 ≤ dev.self_idx) (last : dev.self_idx ≤ 4) where
    whole : dev.self_idx % 2 ^ 8 ≡ dev.self_idx
    whole = omega (arith, last)

    packet-IsPeer : IsPeer packet
    unfolding packet asked
    packet-IsPeer = record {
      first = subst (λ i. 1 ≤ i) (sym whole) first;
      last = subst (λ i. i ≤ 4) (sym whole) last;
      text = name;
      name = c_string-append name (drop (suc (length name)) w.packet.name) word;
    }

    told-heard :
        (now : ℕ)
        → told dev.order (record { packet = packet; now = now }) name ≡ heard dev.self_idx name now
    unfolding packet asked
    told-heard now = rw whole (rw (dev.order.ntohl-htonl (10 % 2 ^ 32) (bounded 10)) refl)

    -- If it is time for a round, `getdevinfo` finds devices that the array holds, and the subject of
    -- the moment has no NUL and fits in the packet, then the recognizer of one of the four devices
    -- sends one packet to each of the devices found, in order. A receiver with five slots at least
    -- that gets the packet puts the subject, with the time of its receipt, in the sender's slot;
    -- its other slots stay.
    pub recognize-receive :
        (info : Information) (l : List Information) (now : ℕ)
        → 5 ≤ length l
        → (w' : Recognizer) × (p : Packet) × (l' : List Information) × (recognize dev turn w
            ≡ ok (w', sends (map (λ d. (d.ip, p)) (take ndev got.devinfo))))
          × (w'.retrieve_time ≡ turn.now)
          × (receive dev.order (record { packet = p; now = now }) info l
              ≡ ok (heard dev.self_idx name now, l'))
          × (get_elem? l' dev.self_idx ≡ some (heard dev.self_idx name now))
          × ((j : ℕ) → (j == dev.self_idx) ≡ false → get_elem? l' j ≡ get_elem? l j)
    unfolding packet-IsPeer packet after asked
    recognize-receive info l now h =
        let arrival : Arrival = record { packet = packet; now = now } in
        let (l', e, n, g, others) = receive-stored dev.order arrival info l packet-IsPeer h in
        (
          after,
          packet,
          l',
          recognize-sends,
          refl,
          e ∙ ap (λ x. ok (x, l')) (told-heard now),
          ap (get_elem? l') (sym whole) ∙ g ∙ ap some (told-heard now),
          λ j q. others j (ap (λ i. j == i) whole ∙ q),
        )
