-- ===== src/Schedule/Ends.antt =====
-- The parts of the commands that take no fuel do not want for it.
use embedded_pg.Base.{
  ℕ, zero, suc, ◌+◌, inl, inr, Option, none, some, List, [], ◌∷◌, length, ltb, Bool-cases,
  Option-cases,
}
use embedded_pg.Base.Outcome.{ok, ◌>>=◌, Ends, Ends-then}
use embedded_pg.Cstring.{Str, same}
use embedded_pg.Stdio.{skip_space, scan_word, scan_word_upto, is_nil}
use embedded_pg.Schedule.Entry.{Entry, subject_name_max}
use embedded_pg.Schedule.Align.{
  date_after, time_after, swap_if, date_pass, date_loop, time_pass, time_loop, re_align,
}
use embedded_pg.Schedule.File.{Disk, scan_row, read_rows, txt_read, print_rows, txt_write}
use embedded_pg.Schedule.Delete.{Removal, shift, remove_on, ended, refused}
use embedded_pg.Schedule.Register.{rewrite_sorted}

date_pass-Ends : (k : ℕ) (x : Entry) (l : List Entry) → Ends (date_pass k x l)
unfolding date_pass
date_pass-Ends zero x l = tt
date_pass-Ends (suc k) x [] = tt
date_pass-Ends (suc k) x (y ∷ l) =
    Ends-then (date_pass k (swap_if (date_after x y) x y).0 l) _
      (date_pass-Ends k (swap_if (date_after x y) x y).0 l) (λ r. tt)

date_loop-Ends : (k : ℕ) (l : List Entry) → Ends (date_loop k l)
unfolding date_loop
date_loop-Ends zero l = tt
date_loop-Ends (suc k) [] = tt
date_loop-Ends (suc k) (x ∷ l) =
    Ends-then (date_pass k x l) _ (date_pass-Ends k x l)
      (λ r. Ends-then (date_loop k r.1) _ (date_loop-Ends k r.1) (λ r'. tt))

time_pass-Ends : (x : Entry) (l : List Entry) → Ends (time_pass x l)
unfolding time_pass
time_pass-Ends x [] = tt
time_pass-Ends x (y ∷ l) = elim (Bool-cases (same x.date y.date)) [
  | inl e ↦
      rw (e, time_pass)
        (Ends-then (time_pass (swap_if (time_after x y) x y).0 l) _
          (time_pass-Ends (swap_if (time_after x y) x y).0 l) (λ r. tt))
  | inr e ↦ rw (e, time_pass) tt
]

time_loop-Ends : (k : ℕ) (l : List Entry) → Ends (time_loop k l)
unfolding time_loop
time_loop-Ends zero l = tt
time_loop-Ends (suc k) [] = tt
time_loop-Ends (suc k) (x ∷ l) =
    Ends-then (time_pass x l) _ (time_pass-Ends x l)
      (λ r. Ends-then (time_loop k r.1) _ (time_loop-Ends k r.1) (λ r'. tt))

pub re_align-Ends : (a : List Entry) (n : ℕ) → Ends (re_align a n)
unfolding re_align
re_align-Ends a n = Ends-then (date_loop n a) _ (date_loop-Ends n a) (λ a'. time_loop-Ends n a')

scan_row-Ends : (inp : Str) (s : Entry) → Ends (scan_row inp s)
unfolding scan_row
scan_row-Ends inp s =
    let r1 : Str = (scan_word_upto 6 inp).1 in
    let n : Str = (scan_word r1).0 in
    let t : Str = (scan_word_upto 4 (scan_word r1).1).0 in
    elim (Bool-cases (is_nil (scan_word_upto 6 inp).0)) [
      | inl e ↦ rw e tt
      | inr e ↦ elim (Bool-cases (is_nil n)) [
        | inl f ↦ rw e (rw f tt)
        | inr f ↦ elim (Bool-cases (ltb (length n) subject_name_max)) [
          | inr g ↦ rw e (rw f (rw g tt))
          | inl g ↦ elim (Bool-cases (is_nil t)) [
            | inl k ↦ rw e (rw f (rw g (rw k tt)))
            | inr k ↦ rw e (rw f (rw g (rw k tt)))
          ]
        ]
      ]
    ]

read_more-Ends :
    (s : Entry) (slots : List Entry) (more : Option Str)
    → ((rest : Str) → Ends (read_rows slots rest))
    → Ends {A = List Entry × ℕ} (elim more [
      | none ↦ ok (s ∷ slots, 0)
      | some rest ↦ read_rows slots rest >>= λ r. ok (s ∷ r.0, r.1 + 1)
    ])
read_more-Ends s slots none h = tt
read_more-Ends s slots (some rest) h = Ends-then (read_rows slots rest) _ (h rest) (λ r. tt)

pub read_rows-Ends : (a : List Entry) (inp : Str) → Ends (read_rows a inp)
unfolding read_rows
read_rows-Ends [] inp = elim (Bool-cases (is_nil (skip_space inp))) [
  | inl e ↦ rw e tt
  | inr e ↦ rw e tt
]
read_rows-Ends (s ∷ slots) inp =
    Ends-then (scan_row inp s) _ (scan_row-Ends inp s)
      (λ x. read_more-Ends x.0 slots x.1 (λ rest. read_rows-Ends slots rest))

pub txt_read-Ends : (a : List Entry) (disk : Disk) → Ends (txt_read a disk)
unfolding txt_read
txt_read-Ends a disk = elim (Option-cases disk.text) [
  | inl e ↦ rw (e, txt_read) tt
  | inr (text, e) ↦
      rw (e, txt_read) (Ends-then (read_rows a text) _ (read_rows-Ends a text) (λ x. tt))
]

print_rows-Ends : (n : ℕ) (a : List Entry) → Ends (print_rows n a)
unfolding print_rows
print_rows-Ends zero a = tt
print_rows-Ends (suc n) [] = tt
print_rows-Ends (suc n) (e ∷ a) = Ends-then (print_rows n a) _ (print_rows-Ends n a) (λ r. tt)

pub txt_write-Ends : (a : List Entry) (n : ℕ) (disk : Disk) → Ends (txt_write a n disk)
unfolding txt_write
txt_write-Ends a n disk = elim (Bool-cases disk.writable) [
  | inl e ↦ rw e (Ends-then (print_rows n a) _ (print_rows-Ends n a) (λ t. tt))
  | inr e ↦ rw e tt
]

shift-Ends : (k : ℕ) (l : List Entry) → Ends (shift k l)
unfolding shift
shift-Ends zero l = tt
shift-Ends (suc k) [] = tt
shift-Ends (suc k) (x ∷ []) = tt
shift-Ends (suc k) (x ∷ y ∷ l) = Ends-then (shift k (y ∷ l)) _ (shift-Ends k (y ∷ l)) (λ r. tt)

keep-Ends :
    (e : Entry) (o : Removal)
    → Ends {A = Removal}
        (elim o [ ended l' c ↦ ok (ended (e ∷ l') (suc c)) | refused ↦ ok refused ])
keep-Ends e (ended l' c) = tt
keep-Ends e refused = tt

pub remove_on-Ends : (d n : Str) (k : ℕ) (l : List Entry) → Ends (remove_on d n k l)
unfolding remove_on
remove_on-Ends d n zero l = tt
remove_on-Ends d n (suc k) [] = tt
remove_on-Ends d n (suc k) (e ∷ l) = elim (Bool-cases (same d e.date)) [
  | inl f ↦ elim (Bool-cases (same n e.name_sub)) [
    | inl g ↦
        rw (f, remove_on)
          (rw g (Ends-then (shift (suc k) (e ∷ l)) _ (shift-Ends (suc k) (e ∷ l)) (λ l'. tt)))
    | inr g ↦ rw (f, remove_on) (rw g tt)
  ]
  | inr f ↦
      rw (f, remove_on)
        (Ends-then (remove_on d n k l) _ (remove_on-Ends d n k l) (λ o. keep-Ends e o))
]

pub rewrite_sorted-Ends : (a : List Entry) (text : Str) → Ends (rewrite_sorted a text)
unfolding rewrite_sorted
rewrite_sorted-Ends a text = Ends-then (read_rows a text) _ (read_rows-Ends a text) (λ x.
    Ends-then (re_align x.0 x.1) _ (re_align-Ends x.0 x.1)
      (λ a'. Ends-then (print_rows x.1 a') _ (print_rows-Ends x.1 a') (λ t. tt)))
