-- ===== src/Parsebat/Flat/Rows.antt =====
-- What the text parser takes from a listing as `batctl n` prints it: two header lines and a line
-- for each device, whose address is its second word.
use embedded_pg.Base.{
  ℕ, zero, suc, ◌+◌, ◌≤◌, ◌≡◌, refl, ap, ◌∙◌, Bool, true, false, not, none, some, List, [], ◌∷◌,
  ◌++◌, length, take, map, All, arith, ◌==◌,
}
use embedded_pg.Base.Int.{pos}
use embedded_pg.Base.Outcome.{ok}
use embedded_pg.Cstring.{Str}
use embedded_pg.Parsebat.Reader.{Reader, isspace}
use embedded_pg.Parsebat.Parse.{parsebat}
use embedded_pg.Parsebat.Flat.{
  at_eof, stream, flat_line, flat_skip, flat_mac, flat_row, flat_next, flat_rows, parse_text,
}
use embedded_pg.Parsebat.Flat.Header.{parsebat-eq-parse_text}

-- A line without its newline. `lead` is its first byte, which is passed over.
pub record Device : Type 0 where
  pub lead : ℕ
  pub indent : Str
  pub iface : Str
  pub gap : Str
  pub mac : Str
  pub tail : Str

abbrev pub is_word : ℕ → Bool
is_word ch = not (isspace ch)

abbrev pub Every : (ℕ → Bool) → Str → Type 0
Every test = All (λ c. test c ≡ true)

abbrev pub OneLine : Str → Type 0
OneLine = All (λ c. (c == b'\n') ≡ false)

-- An address of 17 bytes behind one word and white space.
pub record IsDevice (d : Device) : Type 0 where
  pub indent_space : Every isspace d.indent
  pub iface_some : 1 ≤ length d.iface
  pub iface_word : Every is_word d.iface
  pub gap_some : 1 ≤ length d.gap
  pub gap_space : Every isspace d.gap
  pub mac_length : length d.mac ≡ 17
  pub mac_word : Every is_word d.mac
  pub tail_line : OneLine d.tail

-- A device's line from its second byte on, with its newline.
unfoldable pub device_text : Device → Str → Str
device_text d rest = d.indent ++ (d.iface ++ (d.gap ++ (d.mac ++ (d.tail ++ b'\n' ∷ rest))))

unfoldable pub devices_text : List Device → Str
devices_text [] = []
devices_text (d ∷ l) = d.lead ∷ device_text d (devices_text l)

unfoldable pub listing : Str → Str → List Device → Str
listing header columns l = header ++ b'\n' ∷ (columns ++ b'\n' ∷ devices_text l)

flat_line-append : (s r : Str) → OneLine s → flat_line (s ++ b'\n' ∷ r) ≡ some r
unfolding flat_line
flat_line-append [] r h = refl
flat_line-append (c ∷ s) r h = rw h.0 (flat_line-append s r h.1)

module _ (wanted : ℕ → Bool) where
  flat_skip-stop :
      (s t r : Str)
      → Every wanted s
      → 1 ≤ length t
      → Every (λ c. not (wanted c)) t
      → flat_skip wanted (s ++ (t ++ r)) ≡ some (t ++ r)
  unfolding flat_skip
  flat_skip-stop [] [] r h k n = absurd (omega arith)
  flat_skip-stop [] (c ∷ t) r h k n = let stops : wanted c ≡ false = ground (arith, n) in rw stops
  flat_skip-stop (c ∷ s) t r h k n = rw h.0 (flat_skip-stop s t r h.1 k n)

not_word : (s : Str) → Every isspace s → Every (λ c. not (is_word c)) s
not_word [] h = tt
not_word (c ∷ s) h = (rw h.0, not_word s h.1)

flat_mac-append : (n : ℕ) (s r : Str) → length s ≡ n → flat_mac n (s ++ r) ≡ some (s, r)
unfolding flat_mac
flat_mac-append zero [] r h = refl
flat_mac-append zero (c ∷ s) r h = ground arith
flat_mac-append (suc n) [] r h = ground arith
flat_mac-append (suc n) (c ∷ s) r h = rw (flat_mac-append n s r (omega arith))

flat_row-device :
    (d : Device) (rest : Str)
    → IsDevice d
    → flat_row (device_text d rest) ≡ some (d.mac, d.tail ++ b'\n' ∷ rest)
unfolding flat_row device_text
flat_row-device d rest f =
    let behind : Str = d.tail ++ b'\n' ∷ rest in
    let mac_some : 1 ≤ length d.mac = omega (arith, f.mac_length) in
    rw
      (flat_skip-stop isspace d.indent d.iface (d.gap ++ (d.mac ++ behind)) f.indent_space
        f.iface_some f.iface_word)
      (rw
        (flat_skip-stop is_word d.iface d.gap (d.mac ++ behind) f.iface_word f.gap_some
          (not_word d.gap f.gap_space))
        (rw (flat_skip-stop isspace d.gap d.mac behind f.gap_space mac_some f.mac_word)
          (flat_mac-append 17 d.mac behind f.mac_length)))

-- The number of rows that are taken.
abbrev pub least : ℕ → ℕ → ℕ
least zero n = 0
least (suc m) zero = 0
least (suc m) (suc n) = suc (least m n)

flat_next-device :
    (d : Device) (l : List Device) (e : Device)
    → IsDevice d
    → flat_next (d.tail ++ b'\n' ∷ devices_text (e ∷ l)) ≡ some (device_text e (devices_text l))
unfolding flat_next devices_text
flat_next-device d l e f =
    rw (flat_line-append d.tail (e.lead ∷ device_text e (devices_text l)) f.tail_line)

flat_next-last : (d : Device) → IsDevice d → flat_next (d.tail ++ b'\n' ∷ devices_text []) ≡ none
unfolding flat_next devices_text
flat_next-last d f = rw (flat_line-append d.tail [] f.tail_line)

least_zero : (m : ℕ) → least m 0 ≡ 0
least_zero zero = refl
least_zero (suc m) = refl

take_nil : (m : ℕ) → take {A = Str} m [] ≡ []
take_nil zero = refl
take_nil (suc m) = refl

flat_rows-devices :
    (left ndev : ℕ) (d : Device) (l : List Device)
    → All IsDevice (d ∷ l)
    → flat_rows at_eof left ndev (device_text d (devices_text l)) ≡ record {
      ndev = pos (ndev + least left (length (d ∷ l)));
      macs = take left (map (λ x. x.mac) (d ∷ l));
    }
unfolding flat_rows
flat_rows-devices zero ndev d l f = ap (λ (n : ℕ). record { ndev = pos n; macs = [] }) (omega arith)
flat_rows-devices (suc left) ndev d [] f =
    rw (flat_row-device d (devices_text []) f.0, flat_rows)
      (rw (flat_next-last d f.0) (rw (least_zero left, take_nil left) refl))
flat_rows-devices (suc left) ndev d (e ∷ l) f =
    rw (flat_row-device d (devices_text (e ∷ l)) f.0, flat_rows)
      (rw (flat_next-device d l e f.0) (
        rw (flat_rows-devices left (ndev + 1) e l f.1) (
          ap
            (λ (n : ℕ). record {
              ndev = pos n;
              macs = d.mac ∷ take left (map (λ x. x.mac) (e ∷ l));
            })
            (omega arith))))

devices-parse :
    (maxdev : ℕ) (header columns : Str) (l : List Device)
    → OneLine header
    → OneLine columns
    → All IsDevice l
    → parse_text maxdev (listing header columns l, at_eof)
      ≡ record { ndev = pos (least maxdev (length l)); macs = take maxdev (map (λ x. x.mac) l) }
unfolding parse_text listing flat_next devices_text
devices-parse maxdev header columns [] h c f =
    rw (flat_line-append header (columns ++ b'\n' ∷ []) h, parse_text)
      (rw (flat_line-append columns [] c) (rw (least_zero maxdev, take_nil maxdev) refl))
devices-parse maxdev header columns (d ∷ l) h c f =
    rw (flat_line-append header (columns ++ b'\n' ∷ devices_text (d ∷ l)) h, parse_text)
      (rw (flat_line-append columns (devices_text (d ∷ l)) c) (
        flat_rows-devices maxdev 0 d l f
        ∙ ap (λ (n : ℕ). record { ndev = pos n; macs = take maxdev (map (λ x. x.mac) (d ∷ l)) })
            (omega arith)))

-- If the reads give together what `batctl n` prints, two header lines and a line for each device
-- with its address of 17 bytes as the second word, then the system call returns how many devices
-- there are, or `maxdev` if that is less, and has stored their addresses in order.
pub parsebat-listing :
    (maxdev : ℕ) (r : Reader) (header columns : Str) (l : List Device)
    → OneLine header
    → OneLine columns
    → All IsDevice l
    → stream r.fd ≡ (listing header columns l, at_eof)
    → parsebat maxdev r
      ≡ ok
          (record { ndev = pos (least maxdev (length l)); macs = take maxdev (map (λ x. x.mac) l) })
parsebat-listing maxdev r header columns l h c f e =
    parsebat-eq-parse_text maxdev r
    ∙ ap (λ x. ok (parse_text maxdev x)) e
    ∙ ap ok (devices-parse maxdev header columns l h c f)
