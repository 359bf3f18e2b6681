-- ===== src/Parsebat/Flat.antt =====
-- The same parser on a text that is all there: what the buffered one has to agree with.
pub mod Buffer
pub mod Simulation
pub mod Refine
pub mod Header
pub mod Rows
use embedded_pg.Base.{
  ℕ, zero, suc, ◌+◌, Bool, true, false, not, Option, none, some, List, [], ◌∷◌, ◌++◌, if◌then◌else◌,
  ◌==◌,
}
use embedded_pg.Base.Int.{ℤ, pos, negsuc}
use embedded_pg.Cstring.{Str}
use embedded_pg.Parsebat.Reader.{Read, chunk, failure, isspace}
use embedded_pg.Parsebat.Parse.{Parsed, mac_len, einval}

-- What comes behind the last byte.
pub data Ending : Type 0 where
  at_eof : Ending
  at_error : ℕ → Ending

-- The bytes that the reads give together, and what ends them.
unfoldable pub stream : List Read → Str × Ending
stream [] = ([], at_eof)
stream (chunk [] ∷ fd) = ([], at_eof)
stream (chunk (c ∷ s) ∷ fd) = ((c ∷ s) ++ (stream fd).0, (stream fd).1)
stream (failure e ∷ fd) = ([], at_error e)

-- In what follows `none` is a text that has come to its end.
infixl 5 ◌>>=◌
abbrev pub ◌>>=◌ {ℓ κ} : {A : Type ℓ} {B : Type κ} → Option A → (A → Option B) → Option B
none >>= f = none
some a >>= f = f a

-- Past the next newline.
unfoldable pub flat_line : Str → Option Str
flat_line [] = none
flat_line (c ∷ s) = if c == b'\n' then some s else flat_line s

-- Past one byte.
abbrev pub flat_char : Str → Option Str
flat_char [] = none
flat_char (c ∷ s) = some s

-- To the next byte that is not `wanted`.
unfoldable pub flat_skip : (ℕ → Bool) → Str → Option Str
flat_skip wanted [] = none
flat_skip wanted (c ∷ s) = if wanted c then flat_skip wanted s else some (c ∷ s)

unfoldable pub flat_mac : ℕ → Str → Option (Str × Str)
flat_mac zero s = some ([], s)
flat_mac (suc n) [] = none
flat_mac (suc n) (c ∷ s) = do (mac, r) ← flat_mac n s; some (c ∷ mac, r)

-- The address of a row, and what follows it.
unfoldable pub flat_row : Str → Option (Str × Str)
flat_row s = do
  s1 ← flat_skip isspace s
  s2 ← flat_skip (λ ch. not (isspace ch)) s1
  s3 ← flat_skip isspace s2
  flat_mac mac_len s3

-- What a row that is cut off returns, and what a text that ends after `ndev` rows does.
abbrev pub row_code : Ending → ℤ
row_code at_eof = einval
row_code (at_error e) = negsuc e

abbrev pub end_code : ℕ → Ending → ℤ
end_code ndev at_eof = pos ndev
end_code ndev (at_error e) = negsuc e

-- From a row to the next.
unfoldable pub flat_next : Str → Option Str
flat_next s = do s1 ← flat_line s; flat_char s1

unfoldable pub flat_rows : Ending → ℕ → ℕ → Str → Parsed
flat_rows E zero ndev s = record { ndev = pos ndev; macs = [] }
flat_rows E (suc left) ndev s = elim (flat_row s) [
  | none ↦ record { ndev = row_code E; macs = [] }
  | some (mac, r) ↦ elim (flat_next r) [
    | none ↦ record { ndev = end_code (ndev + 1) E; macs = mac ∷ [] }
    | some s' ↦ let p = flat_rows E left (ndev + 1) s' in record p { macs = mac ∷ p.macs }
  ]
]

-- Two lines and one byte are passed over, then come the rows.
unfoldable pub parse_text : ℕ → Str × Ending → Parsed
parse_text maxdev (s, E) = elim (flat_line s) [
  | none ↦ record { ndev = end_code 0 E; macs = [] }
  | some s1 ↦ elim (flat_next s1) [
    | none ↦ record { ndev = end_code 0 E; macs = [] }
    | some s2 ↦ flat_rows E maxdev 0 s2
  ]
]
