-- ===== src/Stdio/Decimal/Laws.antt =====
-- A number that was printed is read back.
use embedded_pg.Base.{
  ℕ, zero, suc, ◌+◌, ◌*◌, ◌-◌, ◌/◌, ◌%◌, ◌≤◌, ◌<◌, ◌≡◌, refl, ap, ◌∙◌, true, false, some, [], ◌∷◌,
  ◌++◌, length, length-append, length-replicate, replicate, ltb, ◌==◌, All, All-append, arith,
  Bool-cases, inl, inr,
}
use embedded_pg.Base.Int.{pos}
use embedded_pg.Cstring.{Str}
use embedded_pg.Stdio.{is_space, skip_space}
use embedded_pg.Stdio.Decimal.{decimal_on, decimal, zero_pad, print_int_3}
use embedded_pg.Schedule.Register.{is_digit, digits_from, scan_digits, scan_signed, scan_int}

abbrev pub AreDigits : Str → Type 0
AreDigits = All (λ c. is_digit c ≡ true)

-- A text that does not begin with a digit.
abbrev pub EndsNumber : Str → Type 0
EndsNumber [] = Unit
EndsNumber (c ∷ r) = is_digit c ≡ false

-- The number that digits make up, after those that make up `a`.
unfoldable pub value : ℕ → Str → ℕ
value a [] = a
value a (c ∷ s) = value (a * 10 + (c - b'0')) s

value-append : (a : ℕ) (s t : Str) → value a (s ++ t) ≡ value (value a s) t
unfolding value
value-append a [] t = refl
value-append a (c ∷ s) t = value-append (a * 10 + (c - b'0')) s t

digits_from-append :
    (a : ℕ) (s r : Str) → AreDigits s → EndsNumber r → digits_from a (s ++ r) ≡ (value a s, r)
unfolding digits_from value
digits_from-append a [] [] d e = refl
digits_from-append a [] (c ∷ r) d e = rw e refl
digits_from-append a (c ∷ s) r d e = rw d.0 (digits_from-append (a * 10 + (c - b'0')) s r d.1 e)

-- Digits are read as their number, up to what is no digit.
pub scan_int-digits :
    (s r : Str)
    → 1 ≤ length s
    → AreDigits s
    → EndsNumber r
    → scan_int (s ++ r) ≡ (some (pos (value 0 s)), r)
unfolding scan_int scan_signed skip_space is_space scan_digits value
scan_int-digits [] r h d e = absurd (omega arith)
scan_int-digits (c ∷ s) r h d e =
    let solid : is_space c ≡ false = ground (arith, d.0) in
    let no_minus : (c == b'-') ≡ false = ground (arith, d.0) in
    let no_plus : (c == b'+') ≡ false = ground (arith, d.0) in
    rw solid
      (rw no_minus (rw no_plus (rw d.0 (rw (digits_from-append (0 + (c - b'0')) s r d.1 e) refl))))

pub scan_int-space : (s : Str) → scan_int (b' ' ∷ s) ≡ scan_int s
unfolding scan_int skip_space is_space
scan_int-space s = refl

digit-is_digit : (n : ℕ) → n < 10 → is_digit (b'0' + n) ≡ true
digit-is_digit n h = ground arith

decimal_on-small : (fuel n : ℕ) → ltb n 10 ≡ true → decimal_on (suc fuel) n ≡ (b'0' + n) ∷ []
unfolding decimal_on
decimal_on-small fuel n e = rw (e, decimal_on) refl

decimal_on-big :
    (fuel n : ℕ)
    → ltb n 10 ≡ false
    → decimal_on (suc fuel) n ≡ decimal_on fuel (n / 10) ++ (b'0' + n % 10) ∷ []
unfolding decimal_on
decimal_on-big fuel n e = rw (e, decimal_on) refl

decimal_on-AreDigits : (fuel n : ℕ) → AreDigits (decimal_on fuel n)
unfolding decimal_on
decimal_on-AreDigits zero n = tt
decimal_on-AreDigits (suc fuel) n = elim (Bool-cases (ltb n 10)) [
  | inl e ↦ rw (decimal_on-small fuel n e) (digit-is_digit n (ground arith), tt)
  | inr e ↦ rw (decimal_on-big fuel n e) (
      All-append (λ c. is_digit c ≡ true) (decimal_on fuel (n / 10)) ((b'0' + n % 10) ∷ [])
        (decimal_on-AreDigits fuel (n / 10)) (digit-is_digit (n % 10) (omega arith), tt))
]

value-decimal_on : (fuel n : ℕ) → n < fuel → value 0 (decimal_on fuel n) ≡ n
unfolding value
value-decimal_on zero n h = absurd (omega arith)
value-decimal_on (suc fuel) n h = elim (Bool-cases (ltb n 10)) [
  | inl e ↦ ap (value 0) (decimal_on-small fuel n e) ∙ omega arith
  | inr e ↦
      let big : 10 ≤ n = ground arith in
      ap (value 0) (decimal_on-big fuel n e)
      ∙ value-append 0 (decimal_on fuel (n / 10)) ((b'0' + n % 10) ∷ [])
      ∙ omega (arith, value-decimal_on fuel (n / 10) (omega arith))
]

decimal_on-some : (fuel n : ℕ) → 1 ≤ length (decimal_on (suc fuel) n)
decimal_on-some fuel n = elim (Bool-cases (ltb n 10)) [
  | inl e ↦ rw (decimal_on-small fuel n e) (omega arith)
  | inr e ↦
      rw (decimal_on-big fuel n e)
        (omega (arith, length-append (decimal_on fuel (n / 10)) ((b'0' + n % 10) ∷ [])))
]

-- `%d` reads what `%d` has printed.
pub scan_int-decimal :
    (n : ℕ) (r : Str) → EndsNumber r → scan_int (decimal n ++ r) ≡ (some (pos n), r)
unfolding decimal
scan_int-decimal n r e =
    scan_int-digits (decimal_on (suc n) n) r (decimal_on-some n n) (decimal_on-AreDigits (suc n) n)
      e
    ∙ ap (λ m. (some (pos m), r)) (value-decimal_on (suc n) n (omega arith))

zeros-AreDigits : (k : ℕ) → AreDigits (replicate k b'0')
zeros-AreDigits zero = tt
zeros-AreDigits (suc k) = (refl, zeros-AreDigits k)

value-zeros : (k : ℕ) → value 0 (replicate k b'0') ≡ 0
unfolding value
value-zeros zero = refl
value-zeros (suc k) = value-zeros k

-- It reads past the zeros of `%03d` too.
pub scan_int-print_int_3 :
    (n : ℕ) (r : Str) → EndsNumber r → scan_int (print_int_3 (pos n) ++ r) ≡ (some (pos n), r)
unfolding print_int_3 zero_pad decimal
scan_int-print_int_3 n r e =
    let front : Str = replicate (3 - length (decimal_on (suc n) n)) b'0' in
    scan_int-digits (front ++ decimal_on (suc n) n) r
      (omega (arith, length-append front (decimal_on (suc n) n), decimal_on-some n n))
      (All-append (λ c. is_digit c ≡ true) front (decimal_on (suc n) n) (zeros-AreDigits _)
        (decimal_on-AreDigits (suc n) n))
      e
    ∙ ap (λ m. (some (pos m), r))
        (value-append 0 front (decimal_on (suc n) n)
          ∙ ap (λ a. value a (decimal_on (suc n) n))
              (value-zeros (3 - length (decimal_on (suc n) n)))
          ∙ value-decimal_on (suc n) n (omega arith))

-- A digit more than a tenth of it.
length-decimal_on :
    (fuel n k : ℕ)
    → length (decimal_on fuel (n / 10)) ≤ k
    → length (decimal_on (suc fuel) n) ≤ suc k
length-decimal_on fuel n k h = elim (Bool-cases (ltb n 10)) [
  | inl e ↦ rw (decimal_on-small fuel n e) (omega arith)
  | inr e ↦
      rw (decimal_on-big fuel n e)
        (omega (arith, length-append (decimal_on fuel (n / 10)) ((b'0' + n % 10) ∷ [])))
]

-- The least number that has more than so many digits and one.
abbrev pub least_longer : ℕ → ℕ
least_longer zero = 10
least_longer (suc k) = 10 * least_longer k

digits_long : (k fuel n : ℕ) → n < least_longer k → length (decimal_on fuel n) ≤ suc k
unfolding decimal_on
digits_long k zero n h = omega arith
digits_long zero (suc fuel) n h = rw (decimal_on-small fuel n (ground (arith, h))) (omega arith)
digits_long (suc k) (suc fuel) n h =
    length-decimal_on fuel n (suc k) (digits_long k fuel (n / 10) (omega (arith, h)))

pub length-decimal : (k n : ℕ) → n < least_longer k → length (decimal n) ≤ suc k
unfolding decimal
length-decimal k n h = digits_long k (suc n) n h

pub decimal-AreDigits : (n : ℕ) → AreDigits (decimal n)
unfolding decimal
decimal-AreDigits n = decimal_on-AreDigits (suc n) n

-- A number below 1000 takes three bytes.
pub length-print_int_3 : (n : ℕ) → n < 1000 → length (print_int_3 (pos n)) ≡ 3
unfolding print_int_3 zero_pad
length-print_int_3 n h = omega (
  arith,
  length-append (replicate (3 - length (decimal n)) b'0') (decimal n),
  length-replicate {A = ℕ} (3 - length (decimal n)) b'0',
  length-decimal 2 n h,
)

pub print_int_3-AreDigits : (n : ℕ) → AreDigits (print_int_3 (pos n))
unfolding print_int_3 zero_pad decimal
print_int_3-AreDigits n =
    All-append (λ c. is_digit c ≡ true) (replicate (3 - length (decimal n)) b'0') (decimal n)
      (zeros-AreDigits _) (decimal_on-AreDigits (suc n) n)
