-- ===== src/Runtime/Transitions/Committed.antt =====
-- A run transition that succeeded: the row, the journal entry and what stayed.
use codebridge.Base.{
  ℕ, suc, String, Bool, true, false, ◌≡◌, ◌≢◌, refl, sym, ap, ◌∙◌, none, some, ◌∷◌, arith, str_eq,
  if◌then◌else◌, eq_iff, Bool-cases, Option-cases, inl, inr,
}
use mathlib.Core.Path.{subst}
use codebridge.Base.Map.{Dict, lookup, insert, lookup-insert, lookup-insert_self}
use codebridge.Runtime.Entities.{
  Time, ms, time_from_ms, is_zero, is_valid, Run, Event, check_id, stream_run,
}
use codebridge.Runtime.Store.{Db, ok, Fate, update}
use codebridge.Runtime.Rollback.{bind-ok, update-ok}
use codebridge.Runtime.Tables.{get_run, put_run}
use codebridge.Runtime.Rows.{run_times, upsert_run}
use codebridge.Runtime.Tables.Written.{with_run, put_run-ok, get_run-ok}
use codebridge.Runtime.Journal.{event_times, with_defaults, set_last_seq, append_event}
use codebridge.Runtime.Journal.Appended.{
  next_seq, with_event, with_event-events, with_event-runs, append_event-ok,
}
use codebridge.Runtime.Journal.Numbered.{IsValid, with_run-IsValid, with_event-IsValid}
use codebridge.Runtime.Transitions.{
  can_transition, RunTransition, moved, transition_event, move_run, apply_transition,
  transition_run,
}

pub check_id-none : (id prefix : String) → check_id id prefix ≡ none → id ≢ ""
unfolding check_id
check_id-none id prefix h e = ground (arith, eq_iff id "")

-- The row that a run takes: of the old one it keeps created_at, and its last_seq is the event's.
abbrev pub moved_row : RunTransition → Run ℕ → ℕ → Run ℕ
moved_row tr old seq = record (run_times ms (moved tr (run_times time_from_ms old))) {
  last_seq = seq;
  created_at = old.created_at;
}

-- The writes of one transition, in order.
abbrev pub transition_writes : Time → RunTransition → Run Time → Db → Db
transition_writes now tr run db =
    with_event (with_defaults now (transition_event tr (moved tr run))) (with_run (moved tr run) db)

-- The event that one transition appends.
abbrev pub transition_entry : Time → RunTransition → Run Time → Db → Event Time
transition_entry now tr run db = record (with_defaults now (transition_event tr (moved tr run))) {
  seq = next_seq (stream_run run.id) db;
  pos = suc db.last_pos;
}

move_run-ok :
    (now : Time) (tr : RunTransition) (r : Run Time) (db db' : Db) (run : Run Time)
    (ev : Event Time)
    → move_run now tr r db ≡ ok ((run, ev), db')
    → (can_transition r.status tr.status ≡ true)
      × (check_id r.id "run_" ≡ none)
      × (db' ≡ transition_writes now tr r db)
      × (ev ≡ transition_entry now tr r db)
unfolding move_run moved transition_event with_defaults
move_run-ok now tr r db db' run ev h = elim (Bool-cases (can_transition r.status tr.status)) [
  | inr e ↦ absurd (ground arith)
  | inl e ↦
      let (u, db1, put, rest) = bind-ok (put_run (moved tr r)) _ db (run, ev) db' (rw e at h) in
      let w = put_run-ok (moved tr r) db db1 u put in
      let (out, db2, appended, last) =
        bind-ok (append_event now (transition_event tr (moved tr r))) _ db1 (run, ev) db' rest in
      let a = append_event-ok now (transition_event tr (moved tr r)) db1 db2 out appended in
      let d2 : db' ≡ db2 = ground arith in
      let o : ev ≡ out = ground arith in (e, w.0, d2 ∙ a.2 ∙ rw w.2 refl, o ∙ a.3 ∙ rw w.2 refl)
]

apply_transition-ok :
    (now : Time) (tr : RunTransition) (db db' : Db) (run : Run Time) (ev : Event Time)
    → apply_transition now tr db ≡ ok ((run, ev), db')
    → (old : Run ℕ) × (lookup tr.run_id db.runs ≡ some old)
      × (can_transition old.status tr.status ≡ true)
      × (old.id ≢ "")
      × (db' ≡ transition_writes now tr (run_times time_from_ms old) db)
      × (ev ≡ transition_entry now tr (run_times time_from_ms old) db)
unfolding apply_transition run_times
apply_transition-ok now tr db db' run ev h =
    let (r, db1, got, rest) = bind-ok (get_run tr.run_id) _ db (run, ev) db' h in
    let (old, there, same, still) = get_run-ok tr.run_id db db1 r got in
    let m =
      move_run-ok now tr (run_times time_from_ms old) db db' run ev (rw (same, still) at rest) in
    (old, there, m.0, check_id-none old.id "run_" m.1, m.2, m.3)

set_last_seq-lookup :
    (seq : ℕ) (id k : String) (r : Run ℕ) (m : Dict (Run ℕ))
    → lookup id m ≡ some r
    → lookup k (set_last_seq seq (lookup id m) id m)
      ≡ (if str_eq id k then some (record r { last_seq = seq }) else lookup k m)
set_last_seq-lookup seq id k r m h = rw h (lookup-insert id k (record r { last_seq = seq }) m)

if-same :
    {A : Type 0} (b : Bool) (x y z : A)
    → (if b then x else (if b then y else z)) ≡ (if b then x else z)
if-same true x y z = refl
if-same false x y z = refl

written-runs :
    (now : Time) (tr : RunTransition) (old : Run ℕ) (db : Db) (k : String)
    → old.id ≢ ""
    → lookup old.id db.runs ≡ some old
    → lookup k (transition_writes now tr (run_times time_from_ms old) db).runs ≡ (
        if str_eq old.id k
        then some (moved_row tr old (next_seq (stream_run old.id) db))
        else lookup k db.runs)
unfolding run_times moved transition_event with_defaults
written-runs now tr old db k n h =
    let r = run_times time_from_ms old in
    let mid : Run ℕ = upsert_run (some old) (run_times ms (moved tr r)) in
    let runs1 : (with_run (moved tr r) db).runs ≡ insert old.id mid db.runs = rw h refl in
    let there : lookup old.id (with_run (moved tr r) db).runs ≡ some mid =
      rw runs1 (lookup-insert_self old.id mid db.runs) in
    rw
      (with_event-runs (with_defaults now (transition_event tr (moved tr r)))
        (with_run (moved tr r) db) old.id refl n)
      (set_last_seq-lookup (next_seq (stream_run old.id) db) old.id k mid
          (with_run (moved tr r) db).runs there
        ∙ rw (runs1, lookup-insert old.id k mid db.runs) (if-same (str_eq old.id k) _ _ _))

-- A transition that succeeds is the callback of its transaction.
transition_run-update :
    (fate : Fate) (now : Time) (tr : RunTransition) (db : Db) (out : Run Time × Event Time)
    → (transition_run fate now tr db).1 ≡ ok out
    → transition_run fate now tr db ≡ update fate (apply_transition now tr) db
unfolding transition_run
transition_run-update fate now tr db out h = elim (Option-cases (check_id tr.run_id "run_")) [
  | inr (e, given) ↦ absurd (ground arith)
  | inl given ↦ elim (Bool-cases (is_valid tr.status)) [
    | inr f ↦ absurd (ground arith)
    | inl valid ↦ elim (Bool-cases (is_zero tr.moment)) [
      | inl f ↦ absurd (ground arith)
      | inr set ↦ rw (given, valid, set) refl
    ]
  ]
]

-- In a valid database, a transition that succeeds starts at a stored run whose status may move to
-- the one asked for. In the database that it leaves, which is valid again, the run's row has what
-- the transition sets and the sequence number of the event as its last_seq, every other run is as
-- it was, and the journal has one entry more: in the run's stream, with the next number there.
pub transition_run-ok :
    (fate : Fate) (now : Time) (tr : RunTransition) (db : Db) (run : Run Time) (ev : Event Time)
    → IsValid db
    → (transition_run fate now tr db).1 ≡ ok (run, ev)
    → let db' = (transition_run fate now tr db).0 in
      (old : Run ℕ) × (lookup tr.run_id db.runs ≡ some old)
      × (can_transition old.status tr.status ≡ true)
      × (ev.stream ≡ stream_run tr.run_id)
      × (ev.seq ≡ next_seq (stream_run tr.run_id) db)
      × (db'.events ≡ event_times ms ev ∷ db.events)
      × ((k : String)
          → lookup k db'.runs
            ≡ (if str_eq tr.run_id k then some (moved_row tr old ev.seq) else lookup k db.runs))
      × IsValid db'
unfolding moved transition_event with_defaults run_times
transition_run-ok fate now tr db run ev v h =
    let same = transition_run-update fate now tr db (run, ev) h in
    let db' = (transition_run fate now tr db).0 in
    let applied : apply_transition now tr db ≡ ok ((run, ev), db') =
      update-ok fate (apply_transition now tr) db (run, ev) (ap (λ r. r.1) (sym same) ∙ h)
      ∙ rw same refl in
    let (old, there, legal, named, written, entry) =
      apply_transition-ok now tr db db' run ev applied in
    let filed : old.id ≡ tr.run_id = v.runs_filed tr.run_id old there in
    let r = run_times time_from_ms old in
    let appended = with_defaults now (transition_event tr (moved tr r)) in
    let seq : ev.seq ≡ next_seq (stream_run old.id) db = ap (λ e. e.seq) entry in
    (
      old,
      there,
      legal,
      ap (λ e. e.stream) entry ∙ ap stream_run filed,
      seq ∙ ap (λ id. next_seq (stream_run id) db) filed,
      ap (λ d. d.events) written
          ∙ with_event-events appended (with_run (moved tr r) db)
          ∙ ap (λ e. event_times ms e ∷ db.events) (sym entry),
      λ k.
          ap (λ d. lookup k d.runs) written
          ∙ written-runs now tr old db k named (ap (λ id. lookup id db.runs) filed ∙ there)
          ∙ ap (λ q. if str_eq old.id k then some (moved_row tr old q) else lookup k db.runs)
              (sym seq)
          ∙ ap (λ i. if str_eq i k then some (moved_row tr old ev.seq) else lookup k db.runs) filed,
      subst IsValid (sym written) (
          with_event-IsValid appended (with_run (moved tr r) db)
            (with_run-IsValid (moved tr r) db v)),
    )
