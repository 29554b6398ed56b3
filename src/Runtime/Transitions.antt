-- ===== src/Runtime/Transitions.antt =====
-- internal/runtime/transitions.go: the run state machine and the changes of a computer session's
-- controller, each with its journal event in one transaction.
pub mod Legal
pub mod Committed
pub mod Controllers
use codebridge.Base.{
  ℕ, suc, ◌+◌, String, Bool, true, false, ◌||◌, Option, none, some, List, [], ◌∷◌, str_eq, any,
  if◌then◌else◌,
}
use Prim.Native.String.{◌++◌ as ◌++ₛ◌}
use codebridge.Runtime.Entities.{
  Time, unset, at, is_zero, RunStatus, queued, running, completed, failed, cancelled, timeout,
  interrupted, unknown_status, is_terminal, is_valid, status_text, Run, ComputerSession, Controller,
  Event, Error, illegal_transition, unknown_run_status, timestamp_required, check_id,
  validate_controller, stream_run, stream_computer,
}
use codebridge.Runtime.Store.{
  Db, Tx, Result, ok, err, ◌>>=◌, ◌>>◌, return, check, fail, Fate, update, unless_error,
}
use codebridge.Runtime.Tables.{get_run, put_run, get_computer_session, put_computer_session}
use codebridge.Runtime.Journal.{append_event}

-- `==` on statuses.
unfoldable pub same_status : RunStatus → RunStatus → Bool
same_status a b = str_eq (status_text a) (status_text b)

-- The table `runTransitions`; a status that it lacks has no successor.
unfoldable pub run_transitions : RunStatus → List RunStatus
run_transitions queued = running ∷ cancelled ∷ []
run_transitions running = completed ∷ failed ∷ cancelled ∷ timeout ∷ interrupted ∷ []
run_transitions _ = []

unfoldable pub can_transition : RunStatus → RunStatus → Bool
unfolding same_status run_transitions status_text
can_transition from to = any (λ next. same_status next to) (run_transitions from)

pub record RunTransition : Type 0 where
  pub run_id : String
  pub status : RunStatus
  pub moment : Time
  pub source : String
  pub error_category : String
  pub output_ref : String
  pub correlation_id : String
  pub payload : String

abbrev or_old : String → String → String
or_old new old = if str_eq new "" then old else new

-- What the callback sets in the run that it read.
unfoldable pub moved : RunTransition → Run Time → Run Time
unfolding same_status status_text is_terminal
moved tr run = record run {
  status = tr.status;
  error_category = or_old tr.error_category run.error_category;
  output_ref = or_old tr.output_ref run.output_ref;
  started_at =
      if same_status tr.status running
      then (if is_zero run.started_at then tr.moment else run.started_at)
      else run.started_at;
  finished_at =
      if same_status tr.status running
      then run.finished_at
      else (if is_terminal tr.status then tr.moment else run.finished_at);
}

unfoldable pub transition_event : RunTransition → Run Time → Event Time
transition_event tr run = record {
  pos = 0;
  stream = stream_run run.id;
  seq = 0;
  moment = tr.moment;
  session_id = run.session_id;
  project_id = run.project_id;
  source = tr.source;
  kind = "run." ++ₛ status_text tr.status;
  turn_ref = "";
  correlation_id = tr.correlation_id;
  payload = tr.payload;
  raw_ref = "";
}

-- The callback once the run is read.
unfoldable pub move_run : Time → RunTransition → Run Time → Tx (Run Time × Event Time)
move_run now tr run =
    if can_transition run.status tr.status
    then (do
      put_run (moved tr run)
      ev ← append_event now (transition_event tr (moved tr run))
      return (record (moved tr run) { last_seq = ev.seq }, ev))
    else fail illegal_transition

unfoldable pub apply_transition : Time → RunTransition → Tx (Run Time × Event Time)
apply_transition now tr = do run ← get_run tr.run_id; move_run now tr run

unfoldable pub transition_run :
    Fate → Time → RunTransition → Db → Db × Result (Run Time × Event Time)
transition_run fate now tr db = unless_error (check_id tr.run_id "run_") db (
    if is_valid tr.status
    then (if is_zero tr.moment
        then (db, err timestamp_required)
        else update fate (apply_transition now tr) db)
    else (db, err unknown_run_status))

pub record ControllerChange : Type 0 where
  pub computer_session_id : String
  pub controller : Controller
  pub moment : Time
  pub source : String
  pub correlation_id : String
  pub payload : String

unfoldable pub handed_over : ControllerChange → ComputerSession Time → ComputerSession Time
handed_over change session = record session {
  controller = change.controller;
  controller_epoch = suc session.controller_epoch;
  updated_at = change.moment;
}

unfoldable pub controller_event : ControllerChange → ComputerSession Time → Event Time
controller_event change session = record {
  pos = 0;
  stream = stream_computer session.id;
  seq = 0;
  moment = change.moment;
  session_id = session.session_id;
  project_id = "";
  source = change.source;
  kind = "computer.controller.changed";
  turn_ref = "";
  correlation_id = change.correlation_id;
  payload = change.payload;
  raw_ref = "";
}

-- The callback once the session is read.
unfoldable pub hand_over :
    Time → ControllerChange → ComputerSession Time → Tx (ComputerSession Time × Event Time)
hand_over now change session = do
  put_computer_session (handed_over change session)
  ev ← append_event now (controller_event change (handed_over change session))
  return (handed_over change session, ev)

unfoldable pub apply_controller : Time → ControllerChange → Tx (ComputerSession Time × Event Time)
apply_controller now change = do
  session ← get_computer_session change.computer_session_id
  hand_over now change session

unfoldable pub set_computer_controller :
    Fate → Time → ControllerChange → Db → Db × Result (ComputerSession Time × Event Time)
set_computer_controller fate now change db =
    unless_error (check_id change.computer_session_id "cmp_") db (
      unless_error (validate_controller change.controller) db (
        if is_zero change.moment
        then (db, err timestamp_required)
        else update fate (apply_controller now change) db))
