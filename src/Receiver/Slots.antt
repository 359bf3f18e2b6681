-- ===== src/Receiver/Slots.antt =====
-- What the list holds when packets have come.
use embedded_pg.Base.{
  ℕ, zero, suc, ◌≤◌, ◌<◌, ◌≡◌, refl, ap, ◌∙◌, ◌⊎◌, inl, inr, false, some, List, [], ◌∷◌, length,
  get_elem?, All, arith, ◌==◌, Option-cases,
}
use embedded_pg.Base.Int.{pos}
use embedded_pg.Base.Outcome.{ok, fault}
use embedded_pg.Cstring.{Str}
use embedded_pg.Devinfo.{index2ip}
use embedded_pg.Comm.{Packet, Information, ByteOrder, c_string, unpack_packet, update_infolist}
use embedded_pg.Base.Arrays.{set_elem, set_elem-stored}
use embedded_pg.Receiver.{Arrival, receive, receive_all}

-- A packet of one of the four devices, with a name that ends in it.
pub record IsPeer (p : Packet) : Type 0 where
  pub first : 1 ≤ p.index
  pub last : p.index ≤ 4
  pub text : Str
  pub name : c_string p.name ≡ some text

pub index2ip-peer : (i : ℕ) → 1 ≤ i → i ≤ 4 → (ip : Str) × (index2ip (pos i) ≡ ok ip)
unfolding index2ip
index2ip-peer zero h k = absurd (omega arith)
index2ip-peer (suc zero) h k = (_, refl)
index2ip-peer (suc (suc zero)) h k = (_, refl)
index2ip-peer (suc (suc (suc zero))) h k = (_, refl)
index2ip-peer (suc (suc (suc (suc zero)))) h k = (_, refl)
index2ip-peer (suc (suc (suc (suc (suc n))))) h k = absurd (omega arith)

-- What the packet says, with the time of its receipt.
abbrev pub told : ByteOrder → Arrival → Str → Information
told order a text = record {
  index = a.packet.index;
  time = order.ntohl a.packet.time;
  rx_time = a.now;
  subject_name = text;
}

receive-told :
    (order : ByteOrder) (a : Arrival) (info : Information) (l l' : List Information)
    (peer : IsPeer a.packet)
    → set_elem l a.packet.index (told order a peer.text) ≡ ok l'
    → receive order a info l ≡ ok (told order a peer.text, l')
unfolding receive update_infolist unpack_packet
receive-told order a info l l' peer f =
    let (ip, e) = index2ip-peer a.packet.index peer.first peer.last in
    rw (peer.name, unpack_packet) (rw e (rw f refl))

-- If the list has five slots at least, a packet of one of the four devices whose name ends in it is
-- stored, with the time of its receipt, in the slot of its index, and the other slots stay.
pub receive-stored :
    (order : ByteOrder) (a : Arrival) (info : Information) (l : List Information)
    (peer : IsPeer a.packet)
    → 5 ≤ length l
    → (l' : List Information) × (receive order a info l ≡ ok (told order a peer.text, l'))
      × (length l' ≡ length l)
      × (get_elem? l' a.packet.index ≡ some (told order a peer.text))
      × ((j : ℕ) → (j == a.packet.index) ≡ false → get_elem? l' j ≡ get_elem? l j)
receive-stored order a info l peer h =
    let below : a.packet.index < length l = omega (arith, peer.last) in
    let (l', f, n, g, o) = set_elem-stored l a.packet.index (told order a peer.text) below in
    (l', receive-told order a info l l' peer f, n, g, o)

index2ip-outside : (i : ℕ) → (i ≡ 0) ⊎ (5 ≤ i) → index2ip (pos i) ≡ fault
unfolding index2ip
index2ip-outside zero h = refl
index2ip-outside (suc zero) h = absurd (ground arith)
index2ip-outside (suc (suc zero)) h = absurd (ground arith)
index2ip-outside (suc (suc (suc zero))) h = absurd (ground arith)
index2ip-outside (suc (suc (suc (suc zero)))) h = absurd (ground arith)
index2ip-outside (suc (suc (suc (suc (suc n))))) h = refl

-- A packet with the index 0 or one above 4 makes the receiver read outside the table of addresses.
pub receive-outside :
    (order : ByteOrder) (a : Arrival) (info : Information) (l : List Information)
    → (a.packet.index ≡ 0) ⊎ (5 ≤ a.packet.index)
    → receive order a info l ≡ fault
unfolding receive unpack_packet
receive-outside order a info l h = elim (Option-cases (c_string a.packet.name)) [
  | inl e ↦ rw (e, unpack_packet) refl
  | inr (text, e) ↦ rw (e, unpack_packet) (rw (index2ip-outside a.packet.index h) refl)
]

-- A slot that was never received, or that is of one of the four devices.
abbrev pub IsSlot : Information → Type 0
IsSlot x = (x.rx_time ≡ 0) ⊎ ((1 ≤ x.index) × (x.index ≤ 4))

set_elem-All :
    (l : List Information) (i : ℕ) (info : Information)
    → i < length l
    → All IsSlot l
    → IsSlot info
    → (l' : List Information) × (set_elem l i info ≡ ok l') × (length l' ≡ length l) × All IsSlot l'
unfolding set_elem
set_elem-All [] i info h s k = absurd (omega arith)
set_elem-All (x ∷ l) zero info h s k = (info ∷ l, refl, refl, (k, s.1))
set_elem-All (x ∷ l) (suc i) info h s k =
    let (l', e, n, s') = set_elem-All l i info (omega arith) s.1 k in
    (x ∷ l', rw e refl, ap suc n, (s.0, s'))

receive-IsSlot :
    (order : ByteOrder) (a : Arrival) (info : Information) (l : List Information)
    → IsPeer a.packet
    → 5 ≤ length l
    → All IsSlot l
    → (info' : Information) × (l' : List Information) × (receive order a info l ≡ ok (info', l'))
      × (length l' ≡ length l)
      × All IsSlot l'
receive-IsSlot order a info l peer h s =
    let below : a.packet.index < length l = omega (arith, peer.last) in
    let (l', f, n, s') =
      set_elem-All l a.packet.index (told order a peer.text) below s
        (inr (peer.first, peer.last)) in
    (told order a peer.text, l', receive-told order a info l l' peer f, n, s')

abbrev pub ArePeers : List Arrival → Type 0
ArePeers = All (λ a. IsPeer a.packet)

pub receive_all-IsSlot :
    (order : ByteOrder) (ps : List Arrival) (info : Information) (l : List Information)
    → ArePeers ps
    → 5 ≤ length l
    → All IsSlot l
    → (l' : List Information) × (receive_all order ps info l ≡ ok l')
      × (length l' ≡ length l)
      × All IsSlot l'
unfolding receive_all
receive_all-IsSlot order [] info l peers h s = (l, refl, refl, s)
receive_all-IsSlot order (p ∷ ps) info l peers h s =
    let (info1, l1, e, n, s1) = receive-IsSlot order p info l peers.0 h s in
    let (l2, f, m, s2) = receive_all-IsSlot order ps info1 l1 peers.1 (omega arith) s1 in
    (l2, rw e f, m ∙ n, s2)
