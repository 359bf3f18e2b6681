-- ===== src/Bright/Light/Endless.antt =====
-- The menu of the brightness, with an input that is no number.
use embedded_pg.Base.{ℕ, zero, suc, ◌≡◌, refl, ap, none}
use embedded_pg.Base.Int.{ℤ, pos, negsuc}
use embedded_pg.Base.Outcome.{ok, starved}
use embedded_pg.Cstring.{Str}
use embedded_pg.Schedule.Register.{scan_int}
use embedded_pg.Bright.{Unset, scan_number}
use embedded_pg.Bright.Light.{Host, Console, do_bright, select_bright_menu}

-- The number is none of the entries of the menu.
abbrev IsNoEntry : ℤ → Type 0
IsNoEntry (pos (suc (suc (suc (suc n))))) = Unit
IsNoEntry (pos zero) = Unit
IsNoEntry (pos n) = ⊥
IsNoEntry (negsuc n) = Unit

do_bright-no_entry :
    (unset : Unset) (held : ℤ) (host : Host) (buf : Str) (num : ℤ) (c : Console)
    → IsNoEntry num
    → do_bright unset held host buf num c ≡ ok (none, c)
unfolding do_bright
do_bright-no_entry unset held host buf (pos zero) c h = refl
do_bright-no_entry unset held host buf (pos (suc zero)) c h = absurd h
do_bright-no_entry unset held host buf (pos (suc (suc zero))) c h = absurd h
do_bright-no_entry unset held host buf (pos (suc (suc (suc zero)))) c h = absurd h
do_bright-no_entry unset held host buf (pos (suc (suc (suc (suc n))))) c h = refl
do_bright-no_entry unset held host buf (negsuc n) c h = refl

scan_number-held : (num : ℤ) (s : Str) → scan_int s ≡ (none, s) → scan_number num s ≡ ok (num, s)
unfolding scan_number
scan_number-held num s e = rw (e, scan_number) (ap (λ x. ok (num, x.1)) e)

-- If `num` holds no entry of the menu and what is typed is no number and is left unread, then the
-- menu never returns, however long it runs.
select_bright_menu-endless :
    (fuel : ℕ) (unset : Unset) (held : ℤ) (host : Host) (buf : Str) (num : ℤ) (c : Console)
    → IsNoEntry num
    → scan_int c.input ≡ (none, c.input)
    → select_bright_menu fuel unset held host buf num c ≡ starved
unfolding select_bright_menu
select_bright_menu-endless zero unset held host buf num c h e = refl
select_bright_menu-endless (suc fuel) unset held host buf num c h e =
    rw (scan_number-held num c.input e) (
      rw (do_bright-no_entry unset held host buf num c h)
        (select_bright_menu-endless fuel unset held host buf num c h e))
