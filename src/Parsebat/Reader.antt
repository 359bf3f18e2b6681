-- ===== src/Parsebat/Reader.antt =====
-- The buffered reading of kernel/parsebat.c: the static variables, `getchar_from_fd` and the three
-- loops that skip.
use embedded_pg.Base.{
  ℕ, zero, suc, ◌+◌, ◌-◌, Bool, true, false, ◌||◌, Option, none, some, List, [], ◌∷◌, ◌++◌, length,
  drop, get_elem?, if◌then◌else◌, ◌==◌,
}
use embedded_pg.Base.Int.{ℤ, pos, negsuc}
use embedded_pg.Base.Outcome.{Outcome, ok, fault, starved, ◌>>=◌}
use embedded_pg.Cstring.{Str}

-- What the next call of `sys_read` gives: bytes, at most as many as `buf` holds, or the error
-- -(e + 1). When the list is at its end, and at an empty chunk, it gives 0.
pub data Read : Type 0 where
  chunk : Str → Read
  failure : ℕ → Read

pub data BufState : Type 0 where
  buf_ok buf_eof buf_err : BufState

-- The static variables, and what is still to be read from `fd`.
pub record Reader : Type 0 where
  pub buf : Str
  pub bufsize : ℤ
  pub offset : ℕ
  pub state : BufState
  pub fd : List Read

unfoldable pub parsebat_reset : Reader → Reader
parsebat_reset r = record r { bufsize = pos 0; offset = 0; state = buf_ok }

abbrev pub fd_ok : Reader → Bool
fd_ok r = elim r.state [ buf_ok ↦ true | _ ↦ false ]

abbrev pub fd_err : Reader → Bool
fd_err r = elim r.state [ buf_err ↦ true | _ ↦ false ]

abbrev pub fd_eof : Reader → Bool
fd_eof r = elim r.state [ buf_eof ↦ true | _ ↦ false ]

-- `offset == bufsize`
abbrev pub is_at : ℕ → ℤ → Bool
is_at o (pos n) = o == n
is_at o (negsuc n) = false

-- `return buf[offset++];`
unfoldable pub take_char : Reader → Outcome (Option ℕ × Reader)
take_char r = elim (get_elem? r.buf r.offset) [
  | none ↦ fault
  | some c ↦ ok (some c, record r { offset = r.offset + 1 })
]

-- The branch that reads from `fd`, by what the read gives.
unfoldable pub refill : Reader → List Read → Outcome (Option ℕ × Reader)
unfolding take_char
refill r [] = ok (none, record r { bufsize = pos 0; state = buf_eof })
refill r (chunk [] ∷ fd) = ok (none, record r { bufsize = pos 0; state = buf_eof; fd = fd })
refill r (chunk (c ∷ s) ∷ fd) = take_char (record r {
  buf = (c ∷ s) ++ drop (length (c ∷ s)) r.buf;
  bufsize = pos (length (c ∷ s));
  offset = 0;
  fd = fd;
})
refill r (failure e ∷ fd) = ok (none, record r { bufsize = negsuc e; state = buf_err; fd = fd })

-- The result is `none` for -1. A `char` is unsigned, as on the ARM of the board.
unfoldable pub getchar_from_fd : Reader → Outcome (Option ℕ × Reader)
unfolding refill
getchar_from_fd r =
    if fd_ok r
    then (if is_at r.offset r.bufsize then refill r r.fd else take_char r)
    else ok (none, r)

unfoldable pub isspace : ℕ → Bool
isspace ch = ch == b'\n' || ch == b' ' || ch == 9 || ch == 11 || ch == 13

-- `while ((ch = getchar_from_fd(fd)) != '\n') if (ch == -1) return;`, on fuel
unfoldable pub skip_one_line : ℕ → Reader → Outcome Reader
skip_one_line zero r = starved
skip_one_line (suc fuel) r = do
  (ch, r') ← getchar_from_fd r
  elim ch [
    | none ↦ ok r'
    | some c ↦ elim (c == b'\n') [ true ↦ ok r' | false ↦ skip_one_line fuel r' ]
  ]

-- `skip_line(fd, n)`: the `return` at the end of the file is a step that does nothing in each round
-- that is left.
unfoldable pub skip_line : ℕ → ℕ → Reader → Outcome Reader
unfolding skip_one_line
skip_line fuel zero r = ok r
skip_line fuel (suc n) r = do
  r' ← skip_one_line fuel r
  elim (fd_ok r') [ true ↦ skip_line fuel n r' | false ↦ ok r' ]

-- The loop of `skip_space`, where `wanted` is `isspace`, and of `skip_nospace`, where it is its
-- negation. The character that stops it is put back: `offset--`.
unfoldable pub skip_while : (ℕ → Bool) → ℕ → Reader → Outcome Reader
skip_while wanted zero r = starved
skip_while wanted (suc fuel) r = do
  (ch, r') ← getchar_from_fd r
  elim ch [
    | none ↦ ok r'
    | some c ↦ elim (wanted c) [
      | true ↦ skip_while wanted fuel r'
      | false ↦ ok (record r' { offset = r'.offset - 1 })
    ]
  ]
