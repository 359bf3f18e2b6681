-- ===== src/Comm/Packets.antt =====
-- What is packed is unpacked.
use embedded_pg.Base.{
  ℕ, suc, ◌%◌, ◌^◌, ◌<◌, ◌≡◌, refl, ap, ◌∙◌, true, false, some, [], ◌∷◌, ◌++◌, length, drop, ltb,
  ◌==◌, All, arith,
}
use embedded_pg.Base.Outcome.{ok, ◌>>=◌}
use embedded_pg.Cstring.{Str}
use embedded_pg.Comm.{
  Packet, Information, ByteOrder, c_string, strcpy, unpack_packet, pack_information,
}

abbrev pub NoNul : Str → Type 0
NoNul = All (λ c. (c == 0) ≡ false)

pub c_string-append : (s r : Str) → NoNul s → c_string (s ++ 0 ∷ r) ≡ some s
unfolding c_string
c_string-append [] r h = refl
c_string-append (c ∷ s) r h = rw h.0 (rw (c_string-append s r h.1))

pub bounded : (t : ℕ) → t % 2 ^ 32 < 2 ^ 32
bounded t = omega arith

pub pack-eq :
    (order : ByteOrder) (info : Information) (packet : Packet)
    → length info.subject_name < length packet.name
    → pack_information order info packet
      ≡ ok (record {
        index = info.index % 2 ^ 8;
        time = order.htonl (info.time % 2 ^ 32);
        name = info.subject_name ++ 0 ∷ drop (suc (length info.subject_name)) packet.name;
      })
unfolding pack_information strcpy
pack-eq order info packet k =
    let fits : ltb (length info.subject_name) (length packet.name) ≡ true = ground arith in
    rw fits refl

-- A subject's name that has no NUL and fits in the packet comes back from it, with the low 8 bits
-- of the index and the low 32 bits of the time; the time of receipt is not sent.
pub pack_information-unpack_packet :
    (order : ByteOrder) (info : Information) (packet : Packet) (into : Information)
    → NoNul info.subject_name
    → length info.subject_name < length packet.name
    → (pack_information order info packet >>= λ p. unpack_packet order p into)
      ≡ ok (record into {
        index = info.index % 2 ^ 8;
        time = info.time % 2 ^ 32;
        subject_name = info.subject_name;
      })
unfolding unpack_packet
pack_information-unpack_packet order info packet into h k =
    ap (λ m. m >>= λ p. unpack_packet order p into) (pack-eq order info packet k)
    ∙ rw
        (
          c_string-append info.subject_name (drop (suc (length info.subject_name)) packet.name) h,
          unpack_packet,
        )
        (rw (order.ntohl-htonl (info.time % 2 ^ 32) (bounded info.time)) refl)
