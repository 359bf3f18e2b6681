-- ===== src/Receiver/Listing.antt =====
-- What `print_other_infos` makes of the list that the receiver has filled.
use embedded_pg.Base.{
  ℕ, ◌+◌, ◌<◌, ◌≡◌, refl, sym, ap, ◌∙◌, inl, inr, false, some, List, [], ◌∷◌, ◌++◌, length,
  get_elem?, All, arith, ltb, if◌then◌else◌, Bool-cases, map, append_assoc, length-append,
}
use embedded_pg.Base.Int.{pos}
use embedded_pg.Base.Outcome.{ok}
use embedded_pg.Cstring.{Str}
use embedded_pg.Devinfo.{index2ip}
use embedded_pg.Comm.{Information, ByteOrder, get_other_info}
use embedded_pg.Receiver.{
  devinfo_max, Arrival, receive_all, InfoLine, show_infos, print_other_infos,
}
use embedded_pg.Terminal.{myflush, getch}
use embedded_pg.Receiver.Slots.{IsSlot, ArePeers, receive_all-IsSlot, index2ip-peer}

-- What was received ten seconds ago at most.
unfoldable pub fresh : ℕ → List Information → List Information
fresh cur_time [] = []
fresh cur_time (x ∷ l) =
    if ltb (x.rx_time + 10) cur_time then fresh cur_time l else x ∷ fresh cur_time l

-- What the rows say, and what the slots say.
abbrev pub said : List InfoLine → List (Str × ℕ)
said = map (λ row. (row.subject_name, row.time))

abbrev pub studied : List Information → List (Str × ℕ)
studied = map (λ x. (x.subject_name, x.time))

get_elem?-here :
    (pre : List Information) (x : Information) (l : List Information)
    → get_elem? (pre ++ x ∷ l) (length pre) ≡ some x
get_elem?-here [] x l = refl
get_elem?-here (y ∷ pre) x l = get_elem?-here pre x l

get_other_info-here :
    (i : ℕ) (pre : List Information) (info x : Information) (l : List Information)
    → i ≡ length pre
    → get_other_info (record info { index = i }) (pre ++ x ∷ l) ≡ ok x
unfolding get_other_info
get_other_info-here i pre info x l e =
    let found : get_elem? (pre ++ x ∷ l) i ≡ some x =
      ap (get_elem? (pre ++ x ∷ l)) e ∙ get_elem?-here pre x l in
    rw (found, get_other_info) refl

-- A slot that is shown is of one of the four devices.
shown-peer :
    (cur_time : ℕ) (x : Information)
    → 10 < cur_time
    → IsSlot x
    → ltb (x.rx_time + 10) cur_time ≡ false
    → (ip : Str) × (index2ip (pos x.index) ≡ ok ip)
shown-peer cur_time x h s old = elim s [
  | inl never ↦ absurd (ground arith)
  | inr peer ↦ index2ip-peer x.index peer.0 peer.1
]

show_infos-fresh :
    (cur_time i : ℕ) (pre : List Information) (info : Information) (l : List Information)
    → 10 < cur_time
    → i ≡ length pre
    → All IsSlot l
    → (rows : List InfoLine) × (show_infos cur_time i (length l) info (pre ++ l) ≡ ok rows)
      × (said rows ≡ studied (fresh cur_time l))
unfolding show_infos fresh
show_infos-fresh cur_time i pre info [] h e s = ([], refl, refl)
show_infos-fresh cur_time i pre info (x ∷ l) h e s =
    let here = get_other_info-here i pre info x l e in
    let (rows, f, m) =
      show_infos-fresh cur_time (i + 1) (pre ++ x ∷ []) x l h
        (omega (arith, length-append pre (x ∷ []))) s.1 in
    let next : show_infos cur_time (i + 1) (length l) x (pre ++ x ∷ l) ≡ ok rows =
      ap (show_infos cur_time (i + 1) (length l) x) (sym (append_assoc pre (x ∷ []) l)) ∙ f in
    elim (Bool-cases (ltb (x.rx_time + 10) cur_time)) [
      | inl old ↦ (rows, rw here (rw next (rw old refl)), rw old m)
      | inr new ↦
          let (ip, g) = shown-peer cur_time x h s.0 new in
          (
            record { n = 1; ip = ip; subject_name = x.subject_name; time = x.time } ∷ rows,
            rw here (rw next (rw new (rw g refl))),
            rw new (ap (◌∷◌ (x.subject_name, x.time)) m),
          )
    ]

-- If the list has its 256 slots, each never received or of one of the four devices, and only
-- packets of these devices come, the receiver takes them all, and the listing at any time after the
-- first ten seconds comes to its end at the next newline and shows the subject and time of each
-- slot that was received ten seconds ago at most, in order of the slots, and of no other.
pub receive_all-print_other_infos :
    (order : ByteOrder) (ps : List Arrival) (info info' : Information) (l : List Information)
    (cur_time : ℕ) (input r : Str)
    → ArePeers ps
    → length l ≡ devinfo_max
    → All IsSlot l
    → 10 < cur_time
    → myflush input ≡ ok r
    → (l' : List Information) × (rows : List InfoLine) × (receive_all order ps info l ≡ ok l')
      × (print_other_infos cur_time info' l' input ≡ ok (rows, getch r))
      × (said rows ≡ studied (fresh cur_time l'))
unfolding print_other_infos
receive_all-print_other_infos order ps info info' l cur_time input r peers n s h f =
    let (l', e, m, s') = receive_all-IsSlot order ps info l peers (omega arith) s in
    let (rows, g, q) = show_infos-fresh cur_time 0 [] info' l' h refl s' in
    let all : length l' ≡ devinfo_max = m ∙ n in
    let shows : show_infos cur_time 0 devinfo_max info' l' ≡ ok rows =
      ap (λ k. show_infos cur_time 0 k info' l') (sym all) ∙ g in
    (l', rows, e, rw shows (rw f refl), q)
