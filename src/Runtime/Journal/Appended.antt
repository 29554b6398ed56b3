-- ===== src/Runtime/Journal/Appended.antt =====
-- What an append that succeeded did, and the runs that it left alone.
use codebridge.Base.{ℕ, suc, String, ◌≡◌, ◌≢◌, refl, Option, none, some, ◌∷◌, arith, eq_iff}
use codebridge.Base.Map.{lookup}
use codebridge.Base.Text.{cut_prefix}
use codebridge.Runtime.Entities.{Time, ms, Event, require_text, run_id_from_stream, stream_run}
use codebridge.Runtime.Store.{Db, ok, check, write, one_of}
use codebridge.Runtime.Rollback.{bind-ok}
use codebridge.Runtime.Tables.Written.{check-ok, write-ok}
use codebridge.Runtime.Journal.{
  stream_head, with_defaults, sources, mirror_head, insert_event, append_checked, append_event,
  set_last_seq, event_times,
}

-- The sequence number that the next event of a stream takes.
abbrev pub next_seq : String → Db → ℕ
next_seq stream db = suc (stream_head stream db.events)

abbrev pub with_event : Event Time → Db → Db
with_event ev db =
    mirror_head (run_id_from_stream ev.stream) (next_seq ev.stream db)
      (insert_event ev (next_seq ev.stream db) db)

append_checked-ok :
    (ev : Event Time) (db db' : Db) (out : Event Time)
    → append_checked ev db ≡ ok (out, db')
    → (db' ≡ with_event ev db)
      × (out ≡ record ev { seq = next_seq ev.stream db; pos = suc db.last_pos })
unfolding append_checked
append_checked-ok ev db db' out h =
    let (u, db1, written, rest) =
      bind-ok
        (write (λ _. one_of ev.source sources)
          (λ db0.
            mirror_head (run_id_from_stream ev.stream) (next_seq ev.stream db)
              (insert_event ev (next_seq ev.stream db) db0)))
        _ db out db' h in
    let w =
      write-ok (λ _. one_of ev.source sources)
        (λ db0.
          mirror_head (run_id_from_stream ev.stream) (next_seq ev.stream db)
            (insert_event ev (next_seq ev.stream db) db0))
        db db1 u written in
    (ground (arith, w.1), ground arith)

pub append_event-ok :
    (now : Time) (ev : Event Time) (db db' : Db) (out : Event Time)
    → append_event now ev db ≡ ok (out, db')
    → (require_text ev.stream ≡ none)
      × (require_text ev.kind ≡ none)
      × (db' ≡ with_event (with_defaults now ev) db)
      × (out ≡ record (with_defaults now ev) { seq = next_seq ev.stream db; pos = suc db.last_pos })
unfolding append_event with_defaults
append_event-ok now ev db db' out h =
    let (u, db1, c1, h1) = bind-ok (check (require_text ev.stream)) _ db out db' h in
    let k1 = check-ok (require_text ev.stream) db db1 u c1 in
    let (u2, db2, c2, h2) = bind-ok (check (require_text ev.kind)) _ db1 out db' h1 in
    let k2 = check-ok (require_text ev.kind) db1 db2 u2 c2 in
    let a = append_checked-ok (with_defaults now ev) db db' out (rw (k2.1, k1.1) at h2) in
    (k1.0, k2.0, a.0, a.1)

pub run_id_from_stream-stream_run :
    (id : String) → id ≢ "" → run_id_from_stream (stream_run id) ≡ some id
unfolding run_id_from_stream stream_run cut_prefix
run_id_from_stream-stream_run id n = ground (arith, eq_iff id "")

mirror_head-events :
    (o : Option String) (seq : ℕ) (db : Db) → (mirror_head o seq db).events ≡ db.events
unfolding mirror_head
mirror_head-events none seq db = refl
mirror_head-events (some id) seq db = refl

pub with_event-events :
    (ev : Event Time) (db : Db)
    → (with_event ev db).events
      ≡ event_times ms (record ev { seq = next_seq ev.stream db; pos = suc db.last_pos })
        ∷ db.events
unfolding insert_event
with_event-events ev db =
    mirror_head-events (run_id_from_stream ev.stream) (next_seq ev.stream db)
      (insert_event ev (next_seq ev.stream db) db)

-- An event of a run's stream sets the run's last_seq, and no other run changes.
pub with_event-runs :
    (ev : Event Time) (db : Db) (id : String)
    → ev.stream ≡ stream_run id
    → id ≢ ""
    → (with_event ev db).runs ≡ set_last_seq (next_seq ev.stream db) (lookup id db.runs) id db.runs
unfolding insert_event mirror_head
with_event-runs ev db id s n = rw (s, run_id_from_stream-stream_run id n) refl
