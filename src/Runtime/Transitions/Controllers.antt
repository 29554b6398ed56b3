-- ===== src/Runtime/Transitions/Controllers.antt =====
-- Handing over a computer session: the epoch, the row, the journal entry.
use codebridge.Base.{
  ℕ, suc, String, ◌≡◌, refl, sym, ap, ◌∙◌, Option, none, some, ◌∷◌, arith, str_eq, if◌then◌else◌,
  Bool-cases, Option-cases, inl, inr,
}
use codebridge.Base.Map.{lookup, lookup-insert, Each}
use codebridge.Runtime.Entities.{
  Time, ms, time_from_ms, is_zero, ComputerSession, Event, Error, check_id, validate_controller,
  stream_computer, run_id_from_stream,
}
use codebridge.Runtime.Store.{Db, ok, err, Fate, update}
use codebridge.Runtime.Rollback.{bind-ok, update-ok, update-err}
use codebridge.Runtime.Tables.{get_computer_session, put_computer_session}
use codebridge.Runtime.Rows.{computer_session_times}
use codebridge.Runtime.Tables.Written.{
  with_computer_session, put_computer_session-ok, get_computer_session-ok,
}
use codebridge.Runtime.Journal.{event_times, with_defaults, insert_event, mirror_head, append_event}
use codebridge.Runtime.Journal.Appended.{next_seq, with_event, with_event-events, append_event-ok}
use codebridge.Runtime.Transitions.{
  ControllerChange, handed_over, controller_event, hand_over, apply_controller,
  set_computer_controller,
}

abbrev pub SessionAt : String → ComputerSession ℕ → Type 0
SessionAt k c = c.id ≡ k

-- The row after the change.
abbrev pub handed_row : ControllerChange → ComputerSession ℕ → ComputerSession ℕ
handed_row change old =
    record (computer_session_times ms
      (handed_over change (computer_session_times time_from_ms old))) {
        created_at = old.created_at;
      }

abbrev pub handover_writes : Time → ControllerChange → ComputerSession Time → Db → Db
handover_writes now change c db =
    with_event (with_defaults now (controller_event change (handed_over change c)))
      (with_computer_session (handed_over change c) db)

abbrev pub handover_entry : Time → ControllerChange → ComputerSession Time → Db → Event Time
handover_entry now change c db =
    record (with_defaults now (controller_event change (handed_over change c))) {
      seq = next_seq (stream_computer c.id) db;
      pos = suc db.last_pos;
    }

hand_over-ok :
    (now : Time) (change : ControllerChange) (r : ComputerSession Time) (db db' : Db)
    (c : ComputerSession Time) (ev : Event Time)
    → hand_over now change r db ≡ ok ((c, ev), db')
    → (c ≡ handed_over change r)
      × (db' ≡ handover_writes now change r db)
      × (ev ≡ handover_entry now change r db)
unfolding hand_over handed_over controller_event with_defaults
hand_over-ok now change r db db' c ev h =
    let (u, db1, put, rest) =
      bind-ok (put_computer_session (handed_over change r)) _ db (c, ev) db' h in
    let w = put_computer_session-ok (handed_over change r) db db1 u put in
    let (out, db2, appended, last) =
      bind-ok (append_event now (controller_event change (handed_over change r))) _ db1 (c, ev) db'
        rest in
    let a =
      append_event-ok now (controller_event change (handed_over change r)) db1 db2 out appended in
    let d : db' ≡ db2 = ground arith in
    let o : ev ≡ out = ground arith in (ground arith, d ∙ a.2 ∙ rw w.1 refl, o ∙ a.3 ∙ rw w.1 refl)

apply_controller-ok :
    (now : Time) (change : ControllerChange) (db db' : Db) (c : ComputerSession Time)
    (ev : Event Time)
    → apply_controller now change db ≡ ok ((c, ev), db')
    → (old : ComputerSession ℕ) × (lookup change.computer_session_id db.computer_sessions
        ≡ some old)
      × (c ≡ handed_over change (computer_session_times time_from_ms old))
      × (db' ≡ handover_writes now change (computer_session_times time_from_ms old) db)
      × (ev ≡ handover_entry now change (computer_session_times time_from_ms old) db)
unfolding apply_controller
apply_controller-ok now change db db' c ev h =
    let (r, db1, got, rest) =
      bind-ok (get_computer_session change.computer_session_id) _ db (c, ev) db' h in
    let (old, there, same, still) =
      get_computer_session-ok change.computer_session_id db db1 r got in
    let m =
      hand_over-ok now change (computer_session_times time_from_ms old) db db' c ev
        (rw (same, still) at rest) in
    (old, there, m.0, m.1, m.2)

-- Every change of a controller that fails leaves the database as it was.
pub set_computer_controller-err :
    (fate : Fate) (now : Time) (change : ControllerChange) (db : Db) (e : Error)
    → (set_computer_controller fate now change db).1 ≡ err e
    → (set_computer_controller fate now change db).0 ≡ db
unfolding set_computer_controller
set_computer_controller-err fate now change db e h =
    elim (Option-cases (check_id change.computer_session_id "cmp_")) [
      | inr (f, given) ↦ ground arith
      | inl given ↦ elim (Option-cases (validate_controller change.controller)) [
        | inr (f, valid) ↦ ground arith
        | inl valid ↦ elim (Bool-cases (is_zero change.moment)) [
          | inl f ↦ ground arith
          | inr set ↦
              rw (given, valid, set)
                (update-err fate (apply_controller now change) db e (rw (given, valid, set) at h))
        ]
      ]
    ]

set_computer_controller-update :
    (fate : Fate) (now : Time) (change : ControllerChange) (db : Db)
    (out : ComputerSession Time × Event Time)
    → (set_computer_controller fate now change db).1 ≡ ok out
    → (validate_controller change.controller ≡ none)
      × (set_computer_controller fate now change db ≡ update fate (apply_controller now change) db)
unfolding set_computer_controller
set_computer_controller-update fate now change db out h =
    elim (Option-cases (check_id change.computer_session_id "cmp_")) [
      | inr (f, given) ↦ absurd (ground arith)
      | inl given ↦ elim (Option-cases (validate_controller change.controller)) [
        | inr (f, valid) ↦ absurd (ground arith)
        | inl valid ↦ elim (Bool-cases (is_zero change.moment)) [
          | inl f ↦ absurd (ground arith)
          | inr set ↦ (valid, rw (given, valid, set) refl)
        ]
      ]
    ]

with_event-computer_sessions :
    (o : Option String) (ev : Event Time) (n m : ℕ) (db : Db)
    → (mirror_head o n (insert_event ev m db)).computer_sessions ≡ db.computer_sessions
unfolding mirror_head insert_event
with_event-computer_sessions none ev n m db = refl
with_event-computer_sessions (some id) ev n m db = refl

handed-lookup :
    (change : ControllerChange) (old : ComputerSession ℕ) (db : Db) (k : String)
    → lookup old.id db.computer_sessions ≡ some old
    → lookup k
        (with_computer_session
          (handed_over change (computer_session_times time_from_ms old))
          db).computer_sessions
      ≡ (if str_eq old.id k then some (handed_row change old) else lookup k db.computer_sessions)
unfolding handed_over computer_session_times
handed-lookup change old db k h =
    rw h (lookup-insert old.id k (handed_row change old) db.computer_sessions)

-- In a database that files computer sessions under their ids, a change of controller that succeeds
-- has a well-formed controller and an existing session. Its row takes the controller and an epoch
-- higher by one, the other sessions stay, and the journal has one entry more: with the next number
-- of the session's stream.
pub set_computer_controller-ok :
    (fate : Fate) (now : Time) (change : ControllerChange) (db : Db) (c : ComputerSession Time)
    (ev : Event Time)
    → Each SessionAt db.computer_sessions
    → (set_computer_controller fate now change db).1 ≡ ok (c, ev)
    → let db' = (set_computer_controller fate now change db).0 in
      (validate_controller change.controller ≡ none)
      × (old : ComputerSession ℕ) × (lookup change.computer_session_id db.computer_sessions
          ≡ some old)
      × (c.controller_epoch ≡ suc old.controller_epoch)
      × ((k : String)
          → lookup k db'.computer_sessions ≡ (
              if str_eq change.computer_session_id k
              then some (handed_row change old)
              else lookup k db.computer_sessions))
      × (ev.seq ≡ next_seq (stream_computer change.computer_session_id) db)
      × (db'.events ≡ event_times ms ev ∷ db.events)
unfolding handed_over controller_event with_defaults computer_session_times
set_computer_controller-ok fate now change db c ev v h =
    let (valid, same) = set_computer_controller-update fate now change db (c, ev) h in
    let db' = (set_computer_controller fate now change db).0 in
    let applied : apply_controller now change db ≡ ok ((c, ev), db') =
      update-ok fate (apply_controller now change) db (c, ev) (ap (λ r. r.1) (sym same) ∙ h)
      ∙ rw same refl in
    let (old, there, result, written, entry) = apply_controller-ok now change db db' c ev applied in
    let filed : old.id ≡ change.computer_session_id = v change.computer_session_id old there in
    let r = computer_session_times time_from_ms old in
    let appended = with_defaults now (controller_event change (handed_over change r)) in
    (
      valid,
      old,
      there,
      ap (λ s. s.controller_epoch) result,
      λ k.
          ap (λ d. lookup k d.computer_sessions) written
          ∙ ap (lookup k) (
              with_event-computer_sessions (run_id_from_stream appended.stream) appended _ _
                (with_computer_session (handed_over change r) db))
          ∙ handed-lookup change old db k (ap (λ id. lookup id db.computer_sessions) filed ∙ there)
          ∙ ap
              (λ id.
                if str_eq id k then some (handed_row change old) else lookup k db.computer_sessions)
              filed,
      ap (λ e. e.seq) entry ∙ ap (λ id. next_seq (stream_computer id) db) filed,
      ap (λ d. d.events) written
          ∙ with_event-events appended (with_computer_session (handed_over change r) db)
          ∙ ap (λ e. event_times ms e ∷ db.events) (sym entry),
    )
