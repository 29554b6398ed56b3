-- ===== src/Agentops/Runs.antt =====
-- internal/agentops/run_manager.go and run_events.go: one managed run, from its queue to a terminal
-- status, with its two rings of recent lines and recent events. The manager's lock makes each
-- operation one step. The store is nil here, so that nothing is persisted, and no one subscribes.
-- The statuses and their transitions are the ones of Runtime. Times are nanoseconds
-- of a clock that does not go back.
pub mod Recent
pub mod Replayed
pub mod Lifecycle
pub mod Validity
mod Tests
use codebridge.Base.{
  ℕ, zero, suc, ◌+◌, ◌-◌, ◌/◌, ◌%◌, String, Bool, true, false, ◌&&◌, Option, none, some, List, [],
  ◌∷◌, str_eq, nat_eq, ltb, leb, if◌then◌else◌, length, set, get_elem?, take, select,
}
use codebridge.Base.Text.{Text, codes, text_eq, to_lower, trim_space}
use codebridge.Runtime.Entities.{
  Time, unset, at, is_zero, RunStatus, queued, running, completed, failed, cancelled, timeout,
  interrupted, is_terminal, status_text,
}
use codebridge.Runtime.Transitions.{can_transition}
use codebridge.Agentops.Rings.{Ring, push, cons_if, read_slots}

pub record RunSpec : Type 0 where
  pub workspace : String
  pub task : String
  pub client : String
  pub agent : String
  pub model : String
  pub thinking : String
  pub timeout_seconds : ℕ

pub record RunEvent : Type 0 where
  pub run_id : String
  pub seq : ℕ
  pub moment : Time
  pub source : String
  pub kind : String
  pub payload : String

-- `stopped` is the cancelled life context, `done` the closed channel.
pub record RunState : Type 0 where
  pub id : String
  pub spec : RunSpec
  pub status : RunStatus
  pub started_at : Time
  pub finished_at : Time
  pub elapsed_ms : ℕ
  pub output : String
  pub err_text : String
  pub event_total : ℕ
  pub last_event : String
  pub events : Ring String
  pub event_seq : ℕ
  pub journal : Ring RunEvent
  pub stopped : Bool
  pub done : Bool

unfoldable pub run_event : RunState → Time → String → String → String → RunEvent
run_event rs now source kind payload = record {
  run_id = rs.id;
  seq = suc rs.event_seq;
  moment = now;
  source = if str_eq source "" then "codebridge" else source;
  kind = kind;
  payload = payload;
}

unfoldable pub append_runtime_event : RunState → Time → String → String → String → RunState
unfolding push run_event
append_runtime_event rs now source kind payload = record rs {
  event_seq = suc rs.event_seq;
  journal = push rs.journal (run_event rs now source kind payload);
}

unfoldable pub run_status_event_kind : RunStatus → String
run_status_event_kind queued = "run.queued"
run_status_event_kind running = "run.started"
run_status_event_kind completed = "run.completed"
run_status_event_kind failed = "run.failed"
run_status_event_kind cancelled = "run.cancelled"
run_status_event_kind timeout = "run.timeout"
run_status_event_kind interrupted = "run.interrupted"
run_status_event_kind _ = "run.status"

abbrev pub elapsed : Time → Time → ℕ → ℕ
elapsed (at started) (at finished) old = (finished - started) / 1000000
elapsed _ _ old = old

abbrev pub is_running : RunStatus → Bool
is_running running = true
is_running _ = false

-- The fields that a transition sets.
unfoldable pub moved_to : RunState → Time → RunStatus → RunState
unfolding is_terminal
moved_to rs now to = record rs {
  status = to;
  started_at = if is_running to then now else rs.started_at;
  finished_at = if is_terminal to then now else rs.finished_at;
  elapsed_ms = if is_terminal to then elapsed rs.started_at now rs.elapsed_ms else rs.elapsed_ms;
  done = is_terminal to;
}

-- `transitionLocked`; the channel of a run that is not terminal is open.
unfoldable pub transition : RunState → Time → RunStatus → RunState × Bool
unfolding moved_to append_runtime_event run_status_event_kind
transition rs now to =
    if can_transition rs.status to
    then (
      append_runtime_event (moved_to rs now to) now "codebridge" (run_status_event_kind to) "",
      true,
    )
    else (rs, false)

-- `Start` past its checks registers this state.
unfoldable pub start_run : String → RunSpec → Time → List String → List RunEvent → RunState
unfolding append_runtime_event
start_run id spec now lines journal =
    append_runtime_event
      (record {
        id = id;
        spec = spec;
        status = queued;
        started_at = unset;
        finished_at = unset;
        elapsed_ms = 0;
        output = "";
        err_text = "";
        event_total = 0;
        last_event = "";
        events = record { slots = lines; next = 0; kept = 0 };
        event_seq = 0;
        journal = record { slots = journal; next = 0; kept = 0 };
        stopped = false;
        done = false;
      })
      now "codebridge" "run.queued" ""

abbrev pub outcome : RunState → String → String → RunState
outcome rs output err = record rs { output = output; err_text = err }

abbrev pub life_stopped : RunState → RunState
life_stopped rs = record rs { stopped = true }

-- `finish`; `output` is the result's, truncated, and `err` the error's text or "".
unfoldable pub finish : RunState → Time → RunStatus → String → String → RunState
unfolding transition
finish rs now status output err =
    if is_terminal rs.status
    then rs
    else (if can_transition rs.status status
        then life_stopped (transition (outcome rs output err) now status).0
        else (if can_transition rs.status cancelled
            then life_stopped (transition (outcome rs output err) now cancelled).0
            else rs))

-- The status that a harness reports and whether it is unknown.
unfoldable pub status_from_result : Text → RunStatus × Bool
status_from_result s =
    let word = trim_space (to_lower s) in
    let same = text_eq word in
    if same []
    then (completed, false)
    else (if same (codes "completed")
        then (completed, false)
        else (if same (codes "failed")
            then (failed, false)
            else (if same (codes "timeout")
                then (timeout, false)
                else (if same (codes "cancelled")
                    then (cancelled, false)
                    else (if same (codes "canceled")
                        then (cancelled, false)
                        else (failed, true))))))

-- The state of the run's context when the executor is back.
pub data ExecContext : Type 0 where
  live deadline_exceeded canceled : ExecContext

-- `unknown` is the error that fmt prints for a status that is unknown.
abbrev pub reported : RunState → Time → RunStatus × Bool → String → String → RunState
reported rs now (status, false) unknown output = finish rs now status output ""
reported rs now (status, true) unknown output = finish rs now status output unknown

abbrev pub returned : RunState → Time → Text → String → String → String → RunState
returned rs now status unknown output exec_err =
    if str_eq exec_err ""
    then reported rs now (status_from_result status) unknown output
    else finish rs now failed output exec_err

-- An executor's error that is "" stands for nil.
unfoldable pub finish_outcome :
    RunState → Time → ExecContext → Text → String → String → String → RunState
finish_outcome rs now deadline_exceeded status unknown output exec_err =
    finish rs now timeout output ""
finish_outcome rs now canceled status unknown output exec_err = finish rs now cancelled output ""
finish_outcome rs now live status unknown output exec_err =
    returned rs now status unknown output exec_err

unfoldable pub record_event : RunState → Time → String → RunState
unfolding append_runtime_event push
record_event rs now line =
    if is_terminal rs.status
    then rs
    else append_runtime_event
        (record rs {
          events = push rs.events line;
          event_total = suc rs.event_total;
          last_event = line;
        })
        now (rs.spec).client "harness.raw" line

-- `Cancel` of a run that is known.
unfoldable pub cancel : RunState → RunState
cancel rs = record rs { stopped = true }

-- `Events`; a limit of 0 stands for any that is not positive.
unfoldable pub recent_events : RunState → ℕ → List String
unfolding read_slots
recent_events rs limit =
    let kept = (rs.events).kept in
    let n = if ltb 0 limit && ltb limit kept then limit else kept in
    read_slots (rs.events).slots (rs.event_total - n) n

-- `EventsAfter` without a store; `limit` is positive.
unfoldable pub events_after : RunState → ℕ → ℕ → List RunEvent
unfolding read_slots
events_after rs after_seq limit =
    let ring = rs.journal in
    take limit (
      select (λ ev. ltb after_seq ev.seq) (read_slots ring.slots (ring.next - ring.kept) ring.kept))
