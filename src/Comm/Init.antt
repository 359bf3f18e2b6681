-- ===== src/Comm/Init.antt =====
-- `comm_init` of studysys/comm.c, the start of `main` of studysys/schedule.c and what its signal
-- handler shows. The error numbers of the thread library, 0 for none, are arguments.
use embedded_pg.Base.{ℕ, zero, suc, Bool, true, false, none, some, List, [], ◌∷◌, ◌==◌}
use embedded_pg.Base.Int.{ℤ, pos, negsuc}
use embedded_pg.Base.Outcome.{Outcome, ok, stop, ◌>>=◌}
use embedded_pg.Devinfo.{index2ip}
use embedded_pg.Comm.{Interface, self_index_init}

-- What `pthread_create` and `pthread_detach` return for the receiver and for the recognizer.
pub record Threads : Type 0 where
  pub receiver_create : ℕ
  pub receiver_detach : ℕ
  pub recognizer_create : ℕ
  pub recognizer_detach : ℕ

-- What is returned, and which threads run.
pub record Begun : Type 0 where
  pub ret : ℤ
  pub receiver : Bool
  pub recognizer : Bool

-- The second half looks at the error of the first, which was 0 there.
unfoldable pub begin_threads : Threads → Begun
begin_threads t = elim (t.receiver_create == 0) [
  | false ↦ record { ret = pos t.receiver_create; receiver = false; recognizer = false }
  | true ↦ elim (t.receiver_detach == 0) [
    | false ↦ record { ret = pos t.receiver_detach; receiver = true; recognizer = false }
    | true ↦ record { ret = pos 0; receiver = true; recognizer = t.recognizer_create == 0 }
  ]
]

-- The address in the log is looked up whether or not the log is kept.
unfoldable pub comm_init : List Interface → Threads → Outcome Begun
comm_init ifap t = do
  found ← self_index_init ifap
  elim found [
    | none ↦ ok (record { ret = negsuc 0; receiver = false; recognizer = false })
    | some i ↦ do ip ← index2ip i; ok (begin_threads t)
  ]

-- An error that is not negative does not keep `main` from going on.
unfoldable pub begin_main : List Interface → Threads → Outcome Begun
begin_main ifap t = do b ← comm_init ifap t; elim b.ret [ pos n ↦ ok b | negsuc n ↦ stop ]

-- The numbers that the handler shows, before the program exits.
unfoldable pub countdown : ℕ → List ℕ
countdown zero = []
countdown (suc cnt) = cnt ∷ countdown cnt
