-- ===== src/Runtime/Tables/Written.antt =====
-- What a put or a get that succeeded did to the runs and the computer sessions.
use codebridge.Base.{ℕ, String, Bool, true, ◌≡◌, refl, Option, none, some, arith}
use codebridge.Base.Map.{lookup, insert}
use codebridge.Runtime.Entities.{Time, ms, time_from_ms, Run, ComputerSession, Error, check_id}
use codebridge.Runtime.Store.{Db, ok, check, write, found, return, ◌>>=◌}
use codebridge.Runtime.Rollback.{bind-ok}
use codebridge.Runtime.Tables.{
  run_ok, computer_session_ok, put_run, get_run, put_computer_session, get_computer_session,
}
use codebridge.Runtime.Rows.{run_times, computer_session_times, upsert_run, upsert_computer_session}

pub check-ok :
    (o : Option Error) (db db' : Db) (u : Unit {0})
    → check o db ≡ ok (u, db')
    → (o ≡ none) × (db' ≡ db)
check-ok none db db' u h = (refl, ground arith)
check-ok (some e) db db' u h = ground arith

pub write-ok :
    (allowed : Db → Bool) (change : Db → Db) (db db' : Db) (u : Unit {0})
    → write allowed change db ≡ ok (u, db')
    → (allowed db ≡ true) × (db' ≡ change db)
write-ok allowed change db db' u h = (ground arith, ground arith)

found-ok :
    {A B : Type 0} (f : A → B) (o : Option A) (db db' : Db) (b : B)
    → (found o >>= λ a. return (f a)) db ≡ ok (b, db')
    → (a : A) × (o ≡ some a) × (b ≡ f a) × (db' ≡ db)
found-ok f none db db' b h = ground arith
found-ok f (some a) db db' b h = (a, refl, ground arith, ground arith)

-- `INSERT ... ON CONFLICT(id) DO UPDATE` of a run.
abbrev pub with_run : Run Time → Db → Db
with_run r db = record db {
  runs = insert r.id (upsert_run (lookup r.id db.runs) (run_times ms r)) db.runs;
}

abbrev pub with_computer_session : ComputerSession Time → Db → Db
with_computer_session c db = record db {
  computer_sessions =
      insert c.id
        (upsert_computer_session (lookup c.id db.computer_sessions) (computer_session_times ms c))
        db.computer_sessions;
}

pub put_run-ok :
    (r : Run Time) (db db' : Db) (u : Unit {0})
    → put_run r db ≡ ok (u, db')
    → (check_id r.id "run_" ≡ none) × (run_ok (run_times ms r) db ≡ true) × (db' ≡ with_run r db)
unfolding put_run
put_run-ok r db db' u h =
    let (v, db1, checked, written) = bind-ok (check (check_id r.id "run_")) _ db u db' h in
    let c = check-ok (check_id r.id "run_") db db1 v checked in
    let w = write-ok (run_ok (run_times ms r)) (with_run r) db db' u (rw c.1 at written) in
    (c.0, w.0, w.1)

pub get_run-ok :
    (id : String) (db db' : Db) (r : Run Time)
    → get_run id db ≡ ok (r, db')
    → (row : Run ℕ) × (lookup id db.runs ≡ some row) × (r ≡ run_times time_from_ms row) × (db' ≡ db)
unfolding get_run
get_run-ok id db db' r h = found-ok (run_times time_from_ms) (lookup id db.runs) db db' r h

pub put_computer_session-ok :
    (c : ComputerSession Time) (db db' : Db) (u : Unit {0})
    → put_computer_session c db ≡ ok (u, db')
    → (check_id c.id "cmp_" ≡ none) × (db' ≡ with_computer_session c db)
unfolding put_computer_session
put_computer_session-ok c db db' u h =
    let (v, db1, checked, written) = bind-ok (check (check_id c.id "cmp_")) _ db u db' h in
    let k = check-ok (check_id c.id "cmp_") db db1 v checked in
    let w =
      write-ok (computer_session_ok (computer_session_times ms c)) (with_computer_session c) db db'
        u (rw k.1 at written) in
    (k.0, w.1)

pub get_computer_session-ok :
    (id : String) (db db' : Db) (c : ComputerSession Time)
    → get_computer_session id db ≡ ok (c, db')
    → (row : ComputerSession ℕ) × (lookup id db.computer_sessions ≡ some row)
      × (c ≡ computer_session_times time_from_ms row)
      × (db' ≡ db)
unfolding get_computer_session
get_computer_session-ok id db db' c h =
    found-ok (computer_session_times time_from_ms) (lookup id db.computer_sessions) db db' c h
