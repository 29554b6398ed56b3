-- ===== src/Runtime/Journal/Numbered.antt =====
-- The numbering of the journal: in each stream 1, 2, 3 and so on, with positions that grow.
use codebridge.Base.{ℕ, suc, ◌≤◌, ◌<◌, String, ◌≡◌, refl, Option, none, some, List, [], ◌∷◌, arith}
use codebridge.Base.Map.{Dict, lookup, Each, Each-insert}
use codebridge.Runtime.Entities.{Time, ms, Event, Run, ComputerSession, run_id_from_stream}
use codebridge.Runtime.Store.{Db}
use codebridge.Runtime.Rows.{run_times, upsert_run}
use codebridge.Runtime.Tables.Written.{with_run, with_computer_session}
use codebridge.Runtime.Journal.{
  event_times, stream_head, journal_head, mirror_head, insert_event, set_last_seq,
}
use codebridge.Runtime.Journal.Appended.{next_seq, with_event}

abbrev pub IsNumbered : List (Event ℕ) → Type 0
IsNumbered [] = Unit
IsNumbered (e ∷ es) =
    (e.seq ≡ suc (stream_head e.stream es)) × (journal_head es < e.pos) × IsNumbered es

abbrev pub RunAt : String → Run ℕ → Type 0
RunAt k r = r.id ≡ k

-- What holds of the database between two transactions.
pub record IsValid (db : Db) : Type 0 where
  pub runs_filed : Each RunAt db.runs
  pub numbered : IsNumbered db.events
  pub head_bound : journal_head db.events ≤ db.last_pos

upsert_run-id : (o : Option (Run ℕ)) (r : Run ℕ) → (upsert_run o r).id ≡ r.id
upsert_run-id none r = refl
upsert_run-id (some old) r = refl

pub with_run-IsValid : (r : Run Time) (db : Db) → IsValid db → IsValid (with_run r db)
unfolding run_times
with_run-IsValid r db v = record {
  runs_filed =
      Each-insert RunAt r.id _ db.runs (upsert_run-id (lookup r.id db.runs) (run_times ms r))
        v.runs_filed;
  numbered = v.numbered;
  head_bound = v.head_bound;
}

pub with_computer_session-IsValid :
    (c : ComputerSession Time) (db : Db) → IsValid db → IsValid (with_computer_session c db)
with_computer_session-IsValid c db v = record {
  runs_filed = v.runs_filed;
  numbered = v.numbered;
  head_bound = v.head_bound;
}

insert_event-IsValid :
    (ev : Event Time) (db : Db) → IsValid db → IsValid (insert_event ev (next_seq ev.stream db) db)
unfolding insert_event event_times journal_head
insert_event-IsValid ev db v = record {
  runs_filed = v.runs_filed;
  numbered = (refl, ground (arith, v.head_bound), v.numbered);
  head_bound = ground (arith, v.head_bound);
}

set_last_seq-filed :
    (seq : ℕ) (id : String) (runs : Dict (Run ℕ)) (o : Option (Run ℕ))
    → lookup id runs ≡ o
    → Each RunAt runs
    → Each RunAt (set_last_seq seq o id runs)
set_last_seq-filed seq id runs none h v = v
set_last_seq-filed seq id runs (some r) h v =
    Each-insert RunAt id (record r { last_seq = seq }) runs (v id r h) v

mirror_head-IsValid :
    (o : Option String) (seq : ℕ) (db : Db) → IsValid db → IsValid (mirror_head o seq db)
unfolding mirror_head
mirror_head-IsValid none seq db v = v
mirror_head-IsValid (some id) seq db v = record {
  runs_filed = set_last_seq-filed seq id db.runs (lookup id db.runs) refl v.runs_filed;
  numbered = v.numbered;
  head_bound = v.head_bound;
}

pub with_event-IsValid : (ev : Event Time) (db : Db) → IsValid db → IsValid (with_event ev db)
with_event-IsValid ev db v =
    mirror_head-IsValid (run_id_from_stream ev.stream) (next_seq ev.stream db) _
      (insert_event-IsValid ev db v)
