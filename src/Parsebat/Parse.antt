-- ===== src/Parsebat/Parse.antt =====
-- The system call itself. Loops that read take fuel; `parsebat` gives them more than the bytes that
-- are to come.
use embedded_pg.Base.{
  ℕ, zero, suc, ◌+◌, true, false, not, Option, none, some, List, [], ◌∷◌, length, if◌then◌else◌,
}
use embedded_pg.Base.Int.{ℤ, pos, negsuc}
use embedded_pg.Base.Outcome.{Outcome, ok, fault, ◌>>=◌}
use embedded_pg.Cstring.{Str}
use embedded_pg.Parsebat.Reader.{
  Read, chunk, failure, Reader, parsebat_reset, fd_ok, fd_err, fd_eof, getchar_from_fd, isspace,
  skip_line, skip_while,
}

-- `sizeof devinfo[0].mac - 1`
abbrev pub mac_len : ℕ
mac_len = 17

-- -EINVAL
abbrev pub einval : ℤ
einval = negsuc 21

-- `skip_space` and `skip_nospace`
abbrev pub skip_space : ℕ → Reader → Outcome Reader
skip_space = skip_while isspace

abbrev pub skip_nospace : ℕ → Reader → Outcome Reader
skip_nospace = skip_while (λ ch. not (isspace ch))

-- What a check of `fd_err` and `fd_eof` comes to: the error to return, if the row cannot go on.
unfoldable pub row_error : Reader → Option ℤ
row_error r = if fd_err r then some r.bufsize else if fd_eof r then some einval else none

-- A step of a row: it gives a value and goes on, or the row ends with an error.
pub data Step {ℓ} (A : Type ℓ) : Type ℓ where
  go_on : A → Reader → Step A
  broken : ℤ → Step A

-- The `for` that copies the address: `n` bytes are left.
unfoldable pub read_mac : ℕ → Reader → Outcome (Step Str)
read_mac zero r = ok (go_on [] r)
read_mac (suc n) r = do
  (ch, r') ← getchar_from_fd r
  elim (row_error r') [
    | some e ↦ ok (broken e)
    | none ↦ elim ch [
      | none ↦ fault
      | some c ↦ do
        step ← read_mac n r'
        elim step [ broken e ↦ ok (broken e) | go_on mac r'' ↦ ok (go_on (c ∷ mac) r'') ]
    ]
  ]

-- One of the three skips of a row with the checks behind it.
unfoldable pub checked : Outcome Reader → (Reader → Outcome (Step Str)) → Outcome (Step Str)
checked skip next = do r ← skip; elim (row_error r) [ some e ↦ ok (broken e) | none ↦ next r ]

-- From the start of a row to the end of its address.
unfoldable pub parse_mac : ℕ → Reader → Outcome (Step Str)
parse_mac fuel r = checked (skip_space fuel r) λ r1.
    checked (skip_nospace fuel r1) λ r2. checked (skip_space fuel r2) λ r3. read_mac mac_len r3

-- What the call returns, and the addresses of the devices that it has completed.
pub record Parsed : Type 0 where
  pub ndev : ℤ
  pub macs : List Str

-- `while (ndev < maxdev)`: `left` is maxdev - ndev.
unfoldable pub parse_rows : ℕ → ℕ → ℕ → Reader → Outcome Parsed
parse_rows fuel zero ndev r = ok (record { ndev = pos ndev; macs = [] })
parse_rows fuel (suc left) ndev r = do
  step ← parse_mac fuel r
  elim step [
    | broken e ↦ ok (record { ndev = e; macs = [] })
    | go_on mac r1 ↦ do
      r2 ← skip_line fuel 1 r1
      (ch, r3) ← getchar_from_fd r2
      elim (fd_err r3) [
        | true ↦ ok (record { ndev = r3.bufsize; macs = mac ∷ [] })
        | false ↦ elim (fd_eof r3) [
          | true ↦ ok (record { ndev = pos (ndev + 1); macs = mac ∷ [] })
          | false ↦ do p ← parse_rows fuel left (ndev + 1) r3; ok (record p { macs = mac ∷ p.macs })
        ]
      ]
  ]

-- The whole call on fuel. The two `break`s before the loop leave it, as `goto out` does.
unfoldable pub parsebat_on : ℕ → ℕ → Reader → Outcome Parsed
parsebat_on fuel maxdev r = do
  r1 ← skip_line fuel 2 (parsebat_reset r)
  elim (fd_ok r1) [
    | false ↦ ok (record { ndev = if fd_err r1 then r1.bufsize else pos 0; macs = [] })
    | true ↦ do
      (ch, r2) ← getchar_from_fd r1
      elim (fd_err r2) [
        | true ↦ ok (record { ndev = r2.bufsize; macs = [] })
        | false ↦ elim (fd_eof r2) [
          | true ↦ ok (record { ndev = pos 0; macs = [] })
          | false ↦ parse_rows fuel maxdev 0 r2
        ]
      ]
  ]

unfoldable pub bytes_of : List Read → ℕ
bytes_of [] = 0
bytes_of (chunk s ∷ fd) = length s + bytes_of fd
bytes_of (failure e ∷ fd) = bytes_of fd

unfoldable pub parsebat : ℕ → Reader → Outcome Parsed
parsebat maxdev r = parsebat_on (suc (bytes_of r.fd)) maxdev r
