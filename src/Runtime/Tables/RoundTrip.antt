-- ===== src/Runtime/Tables/RoundTrip.antt =====
-- Reading back what was written: `GetX` after `PutX`.
use codebridge.Base.{
  nat_eq_iff, ℕ, suc, ◌*◌, ◌/◌, true, ◌≡◌, refl, ap, ◌∙◌, Option, none, some, arith,
}
use codebridge.Base.Map.{lookup, insert, lookup-insert_self}
use codebridge.Runtime.Entities.{Time, unset, at, ms, time_from_ms, Project, Session, Run, check_id}
use codebridge.Runtime.Store.{Db, ok, check}
use codebridge.Runtime.Rollback.{bind-ok}
use codebridge.Runtime.Tables.{
  put_project, get_project, put_session, get_session, put_run, get_run, session_ok,
}
use codebridge.Runtime.Rows.{
  project_times, session_times, run_times, upsert_project, upsert_session, upsert_run,
}
use codebridge.Runtime.Tables.Written.{check-ok, write-ok, put_run-ok}

-- The zero time, or a whole positive number of milliseconds since the epoch.
pub data IsWhole : Time → Type 0 where
  no_time : IsWhole unset
  millis : (n : ℕ) → IsWhole (at (suc n * 1000000))

time_from_ms-ms : (t : Time) → IsWhole t → time_from_ms (ms t) ≡ t
unfolding time_from_ms ms
time_from_ms-ms unset no_time = refl
time_from_ms-ms (at m) (millis n) =
    let whole : suc n * 1000000 / 1000000 ≡ suc n = omega arith in
    rw whole (ground (arith, nat_eq_iff (suc n) 0))

ms-time_from_ms : (n : ℕ) → ms (time_from_ms n) ≡ n
unfolding time_from_ms ms
ms-time_from_ms n = ground (arith, nat_eq_iff n 0)

-- What a put keeps of the row that was there.
abbrev pub kept_run : Option (Run ℕ) → Run Time → Run Time
kept_run none r = r
kept_run (some old) r = record r {
  last_seq = old.last_seq;
  created_at = time_from_ms old.created_at;
}

abbrev IsWholeRun : Run Time → Type 0
IsWholeRun r =
    IsWhole r.process_started_at
    × IsWhole r.created_at
    × IsWhole r.started_at
    × IsWhole r.finished_at

read_run :
    (o : Option (Run ℕ)) (r : Run Time)
    → IsWholeRun r
    → run_times time_from_ms (upsert_run o (run_times ms r)) ≡ kept_run o r
unfolding run_times
read_run none r (p, c, s, f) =
    rw
      (
        time_from_ms-ms r.process_started_at p,
        time_from_ms-ms r.created_at c,
        time_from_ms-ms r.started_at s,
        time_from_ms-ms r.finished_at f,
      )
      refl
read_run (some old) r (p, c, s, f) =
    rw
      (
        time_from_ms-ms r.process_started_at p,
        time_from_ms-ms r.started_at s,
        time_from_ms-ms r.finished_at f,
      )
      refl

-- A run with times in whole milliseconds is read back as it was written, but for the last_seq and
-- the created_at of the row that it replaces, if there was one.
pub get_run-put_run :
    (r : Run Time) (db db' : Db) (u : Unit {0})
    → IsWholeRun r
    → put_run r db ≡ ok (u, db')
    → get_run r.id db' ≡ ok (kept_run (lookup r.id db.runs) r, db')
unfolding get_run run_times
get_run-put_run r db db' u whole h =
    let (named, allowed, written) = put_run-ok r db db' u h in
    let old = lookup r.id db.runs in
    let row : lookup r.id db'.runs ≡ some (upsert_run old (run_times ms r)) =
      ap (λ d. lookup r.id d.runs) written
      ∙ lookup-insert_self r.id (upsert_run old (run_times ms r)) db.runs in
    rw row (ap (λ x. ok (x, db')) (read_run old r whole))

abbrev with_project : Project Time → Db → Db
with_project p db = record db {
  projects =
      insert p.id (upsert_project (lookup p.id db.projects) (project_times ms p)) db.projects;
}

abbrev with_session : Session Time → Db → Db
with_session s db = record db {
  sessions =
      insert s.id (upsert_session (lookup s.id db.sessions) (session_times ms s)) db.sessions;
}

put_project-ok :
    (p : Project Time) (db db' : Db) (u : Unit {0})
    → put_project p db ≡ ok (u, db')
    → lookup p.id db'.projects
      ≡ some (upsert_project (lookup p.id db.projects) (project_times ms p))
unfolding put_project
put_project-ok p db db' u h =
    let (v, db1, checked, written) = bind-ok (check (check_id p.id "prj_")) _ db u db' h in
    let c = check-ok (check_id p.id "prj_") db db1 v checked in
    let w = write-ok (λ _. true) (with_project p) db1 db' u written in
    ap (λ d. lookup p.id d.projects) w.1
    ∙ lookup-insert_self p.id (upsert_project (lookup p.id db1.projects) (project_times ms p))
        db1.projects
    ∙ ap (λ d. some (upsert_project (lookup p.id d.projects) (project_times ms p))) c.1

put_session-ok :
    (s : Session Time) (db db' : Db) (u : Unit {0})
    → put_session s db ≡ ok (u, db')
    → lookup s.id db'.sessions
      ≡ some (upsert_session (lookup s.id db.sessions) (session_times ms s))
unfolding put_session
put_session-ok s db db' u h =
    let (v, db1, checked, written) = bind-ok (check (check_id s.id "ses_")) _ db u db' h in
    let c = check-ok (check_id s.id "ses_") db db1 v checked in
    let w = write-ok (session_ok (session_times ms s)) (with_session s) db1 db' u written in
    ap (λ d. lookup s.id d.sessions) w.1
    ∙ lookup-insert_self s.id (upsert_session (lookup s.id db1.sessions) (session_times ms s))
        db1.sessions
    ∙ ap (λ d. some (upsert_session (lookup s.id d.sessions) (session_times ms s))) c.1

-- A project and a session that are new, with times in whole milliseconds, are read back as they
-- were written.
pub get-put_new :
    (p : Project Time) (s : Session Time) (db dp ds : Db) (u v : Unit {0})
    → IsWhole p.created_at × IsWhole p.updated_at × IsWhole s.created_at × IsWhole s.updated_at
    → lookup p.id db.projects ≡ none
    → lookup s.id db.sessions ≡ none
    → put_project p db ≡ ok (u, dp)
    → put_session s db ≡ ok (v, ds)
    → (get_project p.id dp ≡ ok (p, dp)) × (get_session s.id ds ≡ ok (s, ds))
unfolding get_project get_session project_times session_times
get-put_new p s db dp ds u v (pc, pu, sc, su) np ns hp hs = (
  rw
      (
        put_project-ok p db dp u hp,
        np,
        time_from_ms-ms p.created_at pc,
        time_from_ms-ms p.updated_at pu,
      )
      refl,
  rw
      (
        put_session-ok s db ds v hs,
        ns,
        time_from_ms-ms s.created_at sc,
        time_from_ms-ms s.updated_at su,
      )
      refl,
)
