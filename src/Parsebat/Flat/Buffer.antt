-- ===== src/Parsebat/Flat/Buffer.antt =====
-- What the buffer of the reader stands for, and what each call of `getchar_from_fd` takes from it.
use embedded_pg.Base.{
  ℕ, zero, suc, ◌+◌, ◌≤◌, ◌<◌, ◌≡◌, refl, sym, ap, ◌∙◌, true, Option, none, some, List, [], ◌∷◌,
  ◌++◌, length, take, drop, take-append_left, length-append, get_elem?, arith, ◌==◌, Bool-cases,
  inl, inr,
}
use embedded_pg.Base.Int.{pos, negsuc}
use embedded_pg.Base.Outcome.{Outcome, ok}
use embedded_pg.Cstring.{Str}
use embedded_pg.Parsebat.Reader.{
  Read, chunk, failure, buf_ok, buf_eof, buf_err, Reader, fd_ok, is_at, take_char, refill,
  getchar_from_fd,
}
use embedded_pg.Parsebat.Flat.{Ending, at_eof, at_error, stream}

-- The reader goes on, with `s` left to read before `E`.
pub record Running (E : Ending) (s : Str) (r : Reader) : Type 0 where
  pub is_ok : r.state ≡ buf_ok
  pub size : ℕ
  pub size_is : r.bufsize ≡ pos size
  pub in_buf : size ≤ length r.buf
  pub in_size : r.offset ≤ size
  pub bytes : drop r.offset (take size r.buf) ++ (stream r.fd).0 ≡ s
  pub ending : (stream r.fd).1 ≡ E

-- The reader has found the end.
abbrev pub Ended : Ending → Reader → Type 0
Ended at_eof r = r.state ≡ buf_eof
Ended (at_error e) r = (r.state ≡ buf_err) × (r.bufsize ≡ negsuc e)

abbrev pub advance : Reader → Reader
advance q = record q { offset = q.offset + 1 }

-- What a call of `getchar_from_fd` comes to with `s` left: at the end the reader has found it;
-- otherwise `q` is the reader with its buffer filled, to which `offset--` goes back.
abbrev pub Gets : Ending → Str → Outcome (Option ℕ × Reader) → Type 0
Gets E [] o = (r' : Reader) × (o ≡ ok (none, r')) × Ended E r'
Gets E (c ∷ s) o =
    (q : Reader) × (o ≡ ok (some c, advance q)) × Running E (c ∷ s) q × Running E s (advance q)

-- The byte at `o`, where `o` is in the part of the list that counts.
drop-take :
    (l : Str) (o n : ℕ)
    → o < n
    → n ≤ length l
    → (c : ℕ) × (get_elem? l o ≡ some c) × (drop o (take n l) ≡ c ∷ drop (suc o) (take n l))
drop-take [] o n h k = absurd (omega arith)
drop-take (x ∷ l) o zero h k = absurd (omega arith)
drop-take (x ∷ l) zero (suc n) h k = (x, refl, refl)
drop-take (x ∷ l) (suc o) (suc n) h k = drop-take l o n (omega arith) (omega arith)

drop-take_all : (l : Str) (o n : ℕ) → o ≡ n → n ≤ length l → drop o (take n l) ≡ []
drop-take_all l zero zero h k = refl
drop-take_all l zero (suc n) h k = absurd (omega arith)
drop-take_all l (suc o) zero h k = absurd (omega arith)
drop-take_all [] (suc o) (suc n) h k = absurd (omega arith)
drop-take_all (x ∷ l) (suc o) (suc n) h k = drop-take_all l o n (omega arith) (omega arith)

-- With a byte in the buffer the call takes it.
take_char-Gets :
    (E : Ending) (s : Str) (r : Reader)
    → (run : Running E s r) → r.offset < run.size
    → Gets E s (take_char r)
unfolding take_char
take_char-Gets E s r run h =
    let (c, e, d) = drop-take r.buf r.offset run.size h run.in_buf in
    let rest : Str = drop (suc r.offset) (take run.size r.buf) ++ (stream r.fd).0 in
    let s_is : s ≡ c ∷ rest = sym run.bytes ∙ ap (λ x. x ++ (stream r.fd).0) d in
    let next : r.offset + 1 ≡ suc r.offset = omega arith in
    let after_c : Running E rest (advance r) = record {
      is_ok = run.is_ok;
      size = run.size;
      size_is = run.size_is;
      in_buf = run.in_buf;
      in_size = omega arith;
      bytes = ap (λ o. drop o (take run.size r.buf) ++ (stream r.fd).0) next;
      ending = run.ending;
    } in
    rw s_is (r, rw (e, take_char), rw s_is at run, after_c)

-- With the buffer used up the call reads on.
refill-Gets :
    (E : Ending) (s : Str) (r : Reader) (fd : List Read)
    → r.state ≡ buf_ok
    → (stream fd).0 ≡ s
    → (stream fd).1 ≡ E
    → Gets E s (refill r fd)
unfolding refill stream
refill-Gets E s r [] i e k =
    rw (← e) (rw (← k) (record r { bufsize = pos 0; state = buf_eof }, refl, refl))
refill-Gets E s r (chunk [] ∷ fd) i e k =
    rw (← e) (rw (← k) (record r { bufsize = pos 0; state = buf_eof; fd = fd }, refl, refl))
refill-Gets E s r (chunk (c ∷ l) ∷ fd) i e k =
    let r' : Reader = record r {
      buf = (c ∷ l) ++ drop (length (c ∷ l)) r.buf;
      bufsize = pos (length (c ∷ l));
      offset = 0;
      fd = fd;
    } in
    take_char-Gets E s r'
      (record {
        is_ok = i;
        size = length (c ∷ l);
        size_is = refl;
        in_buf = omega (arith, length-append (c ∷ l) (drop (length (c ∷ l)) r.buf));
        in_size = omega arith;
        bytes =
            ap (λ x. x ++ (stream fd).0) (take-append_left (c ∷ l) (drop (length (c ∷ l)) r.buf))
            ∙ e;
        ending = k;
      })
      (omega arith)
refill-Gets E s r (failure x ∷ fd) i e k =
    rw (← e)
      (rw (← k) (record r { bufsize = negsuc x; state = buf_err; fd = fd }, refl, (refl, refl)))

pub getchar-Gets :
    (E : Ending) (s : Str) (r : Reader) → Running E s r → Gets E s (getchar_from_fd r)
unfolding getchar_from_fd
getchar-Gets E s r run =
    let at_size : is_at r.offset r.bufsize ≡ (r.offset == run.size) =
      ap (is_at r.offset) run.size_is in
    let going : fd_ok r ≡ true = rw run.is_ok in
    elim (Bool-cases (r.offset == run.size)) [
      | inl e ↦ rw going (
          rw (at_size ∙ e) (
            refill-Gets E s r r.fd run.is_ok
              (ap (λ x. x ++ (stream r.fd).0)
                  (sym (drop-take_all r.buf r.offset run.size (ground arith) run.in_buf))
                ∙ run.bytes)
              run.ending))
      | inr e ↦ rw going (rw (at_size ∙ e) (take_char-Gets E s r run (ground arith)))
    ]
