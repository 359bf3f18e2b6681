-- ===== src/Bright/Light/Minutes.antt =====
-- The minutes that the ultrasonic sensor's process tells, as `get_total_min` reads them.
use embedded_pg.Base.{
  ℕ, zero, suc, ◌+◌, ◌-◌, ◌/◌, ◌^◌, ◌≤◌, ◌<◌, ◌≡◌, refl, sym, ap, ◌∙◌, true, false, some, List, [],
  ◌∷◌, ◌++◌, append-nil, take, length, ltb, ◌==◌, All-imp, arith,
}
use embedded_pg.Base.Int.{pos}
use embedded_pg.Base.Outcome.{ok}
use embedded_pg.Comm.{c_string}
use embedded_pg.Comm.Packets.{c_string-append}
use embedded_pg.Process.{atoi, get_process_id}
use embedded_pg.Schedule.Register.{scan_int, fits_int, is_digit}
use embedded_pg.Stdio.Decimal.{decimal, print_int}
use embedded_pg.Stdio.Decimal.Laws.{scan_int-decimal, length-decimal, decimal-AreDigits}
use embedded_pg.Ultrasonic.{Watch, report, acts, tick, add_seconds, sigusr1_handler}
use embedded_pg.Bright.Light.{Host, ultrasonic_process, bytes, read_minutes, get_total_min}

take-all {ℓ} : {A : Type ℓ} (n : ℕ) (l : List A) → length l ≤ n → take n l ≡ l
take-all zero [] h = refl
take-all zero (x ∷ l) h = absurd (omega arith)
take-all (suc n) [] h = refl
take-all (suc n) (x ∷ l) h = ap (◌∷◌ x) (take-all n l (omega arith))

atoi-decimal : (m : ℕ) → m < 2 ^ 31 → atoi (decimal m) ≡ ok (pos m)
unfolding atoi
atoi-decimal m h =
    let small : fits_int (pos m) ≡ true = ground (arith, h) in
    let read = ap scan_int (sym (append-nil (decimal m))) ∙ scan_int-decimal m [] tt in
    rw (read, atoi) (rw small refl)

-- A number of 32 bits is read as it was printed.
read_minutes-decimal : (m : ℕ) → m < 2 ^ 31 → read_minutes (bytes (decimal m)) ≡ ok (pos m)
unfolding read_minutes
read_minutes-decimal m h =
    let short : length (decimal m) ≤ 10 = length-decimal 9 m (omega (arith, h)) in
    let whole : take 20 (decimal m) ≡ decimal m = take-all 20 (decimal m) (omega (arith, short)) in
    let room : ltb (length (decimal m)) 20 ≡ true = ground (arith, short) in
    let text : c_string (take 20 (decimal m) ++ 0 ∷ []) ≡ some (decimal m) =
      ap (λ x. c_string (x ++ 0 ∷ [])) whole
      ∙ c_string-append (decimal m) [] (
          All-imp (λ c. is_digit c ≡ true) (λ c. (c == 0) ≡ false) (decimal m)
            (λ c d. ground (arith, d)) (decimal-AreDigits m)) in
    rw (whole, read_minutes) (rw room (rw (text, read_minutes) (atoi-decimal m h)))

-- If the sensor's process is found, its pipe can be opened and the seconds that it has counted stay
-- below 2^31, then its handler tells the whole minutes of the seconds counted so far, and what it
-- prints of them is what `get_total_min` returns.
pub sigusr1_handler-get_total_min :
    (host : Host) (pid elapsed : ℕ) (w : Watch)
    → get_process_id ultrasonic_process host.proc host.tmp ≡ ok (pos pid)
    → w.total_sec + (w.now + elapsed - w.tv_start) < 2 ^ 31
    → (w' : Watch) × (m : ℕ) × (sigusr1_handler elapsed true w ≡ ok w')
      × (m ≡ (w.total_sec + (w.now + elapsed - w.tv_start)) / 60)
      × (w'.actions ≡ report w'.now m ∷ w.actions)
      × (get_total_min host (bytes (print_int (pos m))) ≡ ok (pos m))
unfolding sigusr1_handler add_seconds get_total_min print_int
sigusr1_handler-get_total_min host pid elapsed w found h =
    let total : ℕ = w.total_sec + (w.now + elapsed - w.tv_start) in
    let small : ltb total (2 ^ 31) ≡ true = ground (arith, h) in
    let w1 : Watch = record (tick elapsed w) { total_sec = total } in
    (
      acts (record w1 { tv_start = w1.now }) (report w1.now (total / 60)),
      total / 60,
      rw (small, add_seconds) refl,
      refl,
      refl,
      rw found (read_minutes-decimal (total / 60) (omega (arith, h))),
    )
