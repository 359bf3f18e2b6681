-- ===== src/Process/Found.antt =====
-- Which process the search finds.
use embedded_pg.Base.{
  ◌≡◌, refl, ap, ◌∙◌, true, false, none, some, List, [], ◌∷◌, ◌++◌, length, ltb, ◌==◌, All, arith,
}
use embedded_pg.Base.Int.{negsuc}
use embedded_pg.Base.Outcome.{ok}
use embedded_pg.Cstring.{Str, same, strcmp, is_eq}
use embedded_pg.Cstring.Order.{strcmp_self}
use embedded_pg.Stdio.{is_space, scan_word}
use embedded_pg.Stdio.Laws.{IsField, NoSpace, is_nil-false, scan_word-append, scan_word-space}
use embedded_pg.Stdio.Lines.{fgets_lines, file_lines, fgets_lines-line}
use embedded_pg.Process.{
  ProcEntry, is_pid_dir, atoi, scan_status, name_label, has_name, search_entries, get_process_id,
}

-- The text of a `status` file from its first line on: the name of the process, and what follows.
abbrev pub status_text : Str → Str → Str
status_text name rest = name_label ++ 9 ∷ (name ++ b'\n' ∷ rest)

label-IsField : IsField 5 name_label
unfolding is_space
label-IsField = record {
  some_byte = omega arith;
  fits = omega arith;
  no_space = (refl, (refl, (refl, (refl, (refl, tt)))));
}

-- The two words of the line that names the process.
module _ (name : Str) (f : IsField 500 name) where
  name_line : Str
  name_line = name_label ++ 9 ∷ (name ++ b'\n' ∷ [])

  first_word : scan_word name_line ≡ (name_label, 9 ∷ (name ++ b'\n' ∷ []))
  unfolding name_line is_space
  first_word = scan_word-append 0 5 name_label (9 ∷ (name ++ b'\n' ∷ [])) label-IsField refl

  second_word : scan_word (9 ∷ (name ++ b'\n' ∷ [])) ≡ (name, b'\n' ∷ [])
  unfolding is_space
  second_word =
      scan_word-space 9 (name ++ b'\n' ∷ []) refl ∙ scan_word-append 0 500 name (b'\n' ∷ []) f refl

  scan_status-name : (tmp : Str × Str) → scan_status name_line tmp ≡ ok (name_label, name)
  unfolding scan_status
  scan_status-name (tmp1, tmp2) =
      let short : ltb (length name) 512 ≡ true = ground (arith, f.fits) in
      rw first_word (rw second_word (rw short (rw (is_nil-false 500 name f) refl)))

  no_newline : (s : Str) → NoSpace s → All (λ c. (c == b'\n') ≡ false) s
  unfolding is_space
  no_newline [] h = tt
  no_newline (c ∷ s) h = (ground (arith, h.0), no_newline s h.1)

  file_lines-name :
      (rest : Str) → (ls : List Str) × (file_lines (status_text name rest) ≡ name_line ∷ ls)
  unfolding file_lines name_line fgets_lines
  file_lines-name rest = (
    fgets_lines 1024 1024 rest,
    rw (fgets_lines-line 1024 1018 name rest (omega (arith, f.fits)) (no_newline name f.no_space))
        refl,
  )

  has_name-first :
      (proc_name rest : Str) (tmp : Str × Str)
      → has_name proc_name (file_lines (status_text name rest)) tmp
        ≡ ok (same name proc_name, name_label, name)
  unfolding has_name strcmp
  has_name-first proc_name rest tmp =
      let (ls, e) = file_lines-name rest in rw e (rw (scan_status-name tmp) refl)

-- An entry of /proc that is no process, or a process of another name.
pub data IsOther (proc_name : Str) (e : ProcEntry) : Type 0 where
  no_process : is_pid_dir e.d_name ≡ false → IsOther proc_name e
  other_name :
      (name rest : Str)
      → is_pid_dir e.d_name ≡ true
      → IsField 500 name
      → e.status ≡ some (status_text name rest)
      → same name proc_name ≡ false
      → IsOther proc_name e

module _ (proc_name : Str) where
  search-skip :
      (e : ProcEntry) (es : List ProcEntry) (tmp : Str × Str)
      → IsOther proc_name e
      → (tmp' : Str × Str) × (search_entries proc_name (e ∷ es) tmp
          ≡ search_entries proc_name es tmp')
  unfolding search_entries
  search-skip e es tmp (no_process h) = (tmp, rw (h, search_entries) refl)
  search-skip e es tmp (other_name name rest h f s o) = (
    (name_label, name),
    rw (h, search_entries) (rw s (rw (has_name-first name f proc_name rest tmp) (rw o refl))),
  )

  search-hit :
      (e : ProcEntry) (es : List ProcEntry) (tmp : Str × Str) (rest : Str)
      → is_pid_dir e.d_name ≡ true
      → IsField 500 proc_name
      → e.status ≡ some (status_text proc_name rest)
      → search_entries proc_name (e ∷ es) tmp ≡ atoi e.d_name
  unfolding search_entries
  search-hit e es tmp rest h f s =
      rw (h, search_entries)
        (rw s (
          rw (has_name-first proc_name f proc_name rest tmp)
            (rw (ap is_eq (strcmp_self proc_name)) refl)))

  search-found :
      (pre : List ProcEntry) (e : ProcEntry) (post : List ProcEntry) (tmp : Str × Str) (rest : Str)
      → All (IsOther proc_name) pre
      → is_pid_dir e.d_name ≡ true
      → IsField 500 proc_name
      → e.status ≡ some (status_text proc_name rest)
      → search_entries proc_name (pre ++ e ∷ post) tmp ≡ atoi e.d_name
  search-found [] e post tmp rest o h f s = search-hit e post tmp rest h f s
  search-found (x ∷ pre) e post tmp rest o h f s =
      let (tmp', skip) = search-skip x (pre ++ e ∷ post) tmp o.0 in
      skip ∙ search-found pre e post tmp' rest o.1 h f s

  -- Let an entry be a process whose `status` file can be opened and names it, in its first line, with
  -- the name wanted, and let each entry before it be no process, or a process whose file can be opened
  -- and names it with another name in its first line. Then the search gives what `atoi` makes of that
  -- entry's own name, whatever is behind it in the directory or in the two arrays. The names in the
  -- files are of 1 to 500 bytes without white space, and stand behind "Name:" and a tab.
  pub get_process_id-found :
      (pre : List ProcEntry) (e : ProcEntry) (post : List ProcEntry) (tmp : Str × Str) (rest : Str)
      → All (IsOther proc_name) pre
      → is_pid_dir e.d_name ≡ true
      → IsField 500 proc_name
      → e.status ≡ some (status_text proc_name rest)
      → get_process_id proc_name (some (pre ++ e ∷ post)) tmp ≡ atoi e.d_name
  unfolding get_process_id
  get_process_id-found pre e post tmp rest o h f s = search-found pre e post tmp rest o h f s

  -- A process that ends between the reading of the directory and the opening of its file, before the
  -- one wanted is reached, makes the search fail.
  get_process_id-vanished :
      (pre : List ProcEntry) (e : ProcEntry) (post : List ProcEntry) (tmp : Str × Str)
      → All (IsOther proc_name) pre
      → is_pid_dir e.d_name ≡ true
      → e.status ≡ none
      → get_process_id proc_name (some (pre ++ e ∷ post)) tmp ≡ ok (negsuc 0)
  unfolding get_process_id search_entries
  get_process_id-vanished [] e post tmp o h s = rw (h, search_entries) (rw s refl)
  get_process_id-vanished (x ∷ pre) e post tmp o h s =
      let (tmp', skip) = search-skip x (pre ++ e ∷ post) tmp o.0 in
      skip ∙ get_process_id-vanished pre e post tmp' o.1 h s
