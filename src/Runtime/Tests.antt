-- ===== src/Runtime/Tests.antt =====
-- The theorems on the store at small databases.
use codebridge.Base.{
  min_of, ℕ, suc, String, true, ◌≡◌, refl, none, some, List, [], ◌∷◌, arith, length, ◌-◌, str_eq,
  if◌then◌else◌,
}
use codebridge.Base.Map.{lookup, insert, Each, Each-nil, Each-insert}
use codebridge.Base.Text.{cut_prefix}
use codebridge.Runtime.Entities.{
  Time, unset, at, ms, time_from_ms, is_valid, is_terminal, status_text, RunStatus, queued, running,
  completed, failed, Run, Session, ComputerSession, human, local, nobody, no_channel, Event,
  check_id, validate_controller, controller_error, require_text, stream_run, stream_computer,
  run_id_from_stream, validate_contiguous, commit_failed,
}
use codebridge.Runtime.Store.{Db, ok, err, fine, no_commit, update}
use codebridge.Runtime.Tables.{
  run_ok, active_clash, is_active, computer_session_ok, known_kind, known_channel, put_run, get_run,
  put_computer_session, get_computer_session,
}
use codebridge.Runtime.Rows.{run_times, computer_session_times}
use codebridge.Runtime.Tables.Active.{IsExclusive, put_run-IsExclusive}
use codebridge.Runtime.Tables.RoundTrip.{IsWhole, no_time, millis}
use codebridge.Runtime.Journal.{
  event_times, journal_head, stream_head, with_defaults, mirror_head, insert_event, append_checked,
  append_event, events_for_stream, event_page_limit,
}
use codebridge.Runtime.Journal.Appended.{next_seq}
use codebridge.Runtime.Journal.Numbered.{RunAt, IsValid}
use codebridge.Runtime.Journal.Replay.{events_for_stream-contiguous}
use codebridge.Runtime.Transitions.{
  same_status, run_transitions, can_transition, RunTransition, moved, transition_event, move_run,
  apply_transition, transition_run, ControllerChange, handed_over, controller_event, hand_over,
  apply_controller, set_computer_controller,
}
use codebridge.Runtime.Transitions.Committed.{moved_row, transition_run-ok}
use codebridge.Runtime.Transitions.Legal.{Attempt, attempt_all, attempt_all-terminal}
use codebridge.Runtime.Transitions.Controllers.{SessionAt, handed_row, set_computer_controller-ok}
use codebridge.Runtime.Permits.{Grant}
use codebridge.Runtime.Policies.Channels.{GrantAt, put_all, put_all-IsPermitted}

abbrev session_row : Session ℕ
session_row = record {
  id = "ses_1";
  project_id = "";
  title = "t";
  caller_class = "local_ui";
  external_conversation = "";
  status = "open";
  created_at = 5;
  updated_at = 5;
}

abbrev run_row : RunStatus → Run ℕ
run_row status = record {
  id = "run_1";
  session_id = "ses_1";
  project_id = "";
  kind = "agent";
  provider = "claude";
  model = "";
  autonomy = "";
  role = "";
  parent_run_id = "";
  continues_run_id = "";
  provider_session_id = "";
  status = status;
  process_pid = 0;
  process_started_at = 0;
  process_group_id = 0;
  output_ref = "";
  error_category = "";
  last_seq = 0;
  created_at = 5;
  started_at = 0;
  finished_at = 0;
}

abbrev computer_row : ComputerSession ℕ
computer_row = record {
  id = "cmp_1";
  session_id = "ses_1";
  run_id = "";
  target = "desktop";
  state = "active";
  controller = record { kind = nobody; holder = ""; channel = no_channel };
  controller_epoch = 3;
  arbiter_instance = "";
  lease_holder = "";
  lease_expires_at = 0;
  can_observe = true;
  can_input = true;
  can_preview = true;
  granted_verbs = [];
  app_selectors = [];
  last_frame_id = "";
  geometry_generation = 0;
  created_at = 5;
  updated_at = 5;
}

abbrev small_db : RunStatus → Db
small_db status = record {
  projects = [];
  sessions = ("ses_1", session_row) ∷ [];
  provider_sessions = [];
  runs = ("run_1", run_row status) ∷ [];
  computer_sessions = ("cmp_1", computer_row) ∷ [];
  artifacts = [];
  policy_rules = [];
  approvals = [];
  grants = [];
  events = [];
  last_pos = 0;
}

abbrev move_to : RunStatus → RunTransition
move_to status = record {
  run_id = "run_1";
  status = status;
  moment = at 7000000;
  source = "agent";
  error_category = "";
  output_ref = "";
  correlation_id = "";
  payload = "{}";
}

abbrev take_over : ControllerChange
take_over = record {
  computer_session_id = "cmp_1";
  controller = record { kind = human; holder = "u"; channel = local };
  moment = at 7000000;
  source = "computer";
  correlation_id = "";
  payload = "{}";
}

small_db-IsValid : (status : RunStatus) → IsValid (small_db status)
unfolding insert journal_head
small_db-IsValid status = record {
  runs_filed = Each-insert RunAt "run_1" (run_row status) [] refl (Each-nil RunAt);
  numbered = tt;
  head_bound = ground arith;
}

abbrev run_now : Run Time
run_now = record (run_times time_from_ms (run_row running)) {
  last_seq = 1;
  started_at = at 7000000;
}

abbrev first_event : Event Time
first_event = record {
  pos = 1;
  stream = "run:run_1";
  seq = 1;
  moment = at 7000000;
  session_id = "ses_1";
  project_id = "";
  source = "agent";
  kind = "run.running";
  turn_ref = "";
  correlation_id = "";
  payload = "{}";
  raw_ref = "";
}

starts :
    (transition_run fine unset (move_to running) (small_db queued)).1 ≡ ok (run_now, first_event)
unfolding transition_run update apply_transition move_run get_run put_run moved run_times
    time_from_ms ms can_transition same_status run_transitions status_text is_valid is_terminal
    check_id cut_prefix lookup insert run_ok active_clash is_active append_event append_checked
    with_defaults require_text stream_run transition_event stream_head mirror_head insert_event
    run_id_from_stream
starts = refl

transition_run-ok_example :
    let db' = (transition_run fine unset (move_to running) (small_db queued)).0 in
    (old : Run ℕ) × (lookup "run_1" (small_db queued).runs ≡ some old)
    × (can_transition old.status running ≡ true)
    × (first_event.stream ≡ stream_run "run_1")
    × (first_event.seq ≡ next_seq (stream_run "run_1") (small_db queued))
    × (db'.events ≡ event_times ms first_event ∷ [])
    × ((k : String)
        → lookup k db'.runs ≡ (
            if str_eq "run_1" k
            then some (moved_row (move_to running) old 1)
            else lookup k (small_db queued).runs))
    × IsValid db'
transition_run-ok_example =
    transition_run-ok fine unset (move_to running) (small_db queued) run_now first_event
      (small_db-IsValid queued) starts

there : (status : RunStatus) → lookup "run_1" (small_db status).runs ≡ some (run_row status)
unfolding lookup
there status = refl

final : is_terminal completed ≡ true
unfolding is_terminal
final = refl

abbrev attempts : List Attempt
attempts =
    record { fate = fine; now = unset; transition = move_to running }
    ∷ record { fate = fine; now = unset; transition = move_to failed }
    ∷ []

attempt_all-terminal_example :
    lookup "run_1" (attempt_all attempts (small_db completed)).runs ≡ some (run_row completed)
attempt_all-terminal_example =
    attempt_all-terminal attempts (small_db completed) "run_1" (run_row completed)
      (small_db-IsValid completed) (there completed) final

valid : (is_valid running ≡ true) × (is_valid failed ≡ true)
unfolding is_valid
valid = (refl, refl)

sessions_filed : Each SessionAt (small_db queued).computer_sessions
unfolding insert
sessions_filed = Each-insert SessionAt "cmp_1" computer_row [] refl (Each-nil SessionAt)

abbrev computer_now : ComputerSession Time
computer_now = record (computer_session_times time_from_ms computer_row) {
  controller = take_over.controller;
  controller_epoch = 4;
  updated_at = at 7000000;
}

abbrev handover_event : Event Time
handover_event = record {
  pos = 1;
  stream = "computer:cmp_1";
  seq = 1;
  moment = at 7000000;
  session_id = "ses_1";
  project_id = "";
  source = "computer";
  kind = "computer.controller.changed";
  turn_ref = "";
  correlation_id = "";
  payload = "{}";
  raw_ref = "";
}

hands_over :
    (set_computer_controller fine unset take_over (small_db queued)).1
    ≡ ok (computer_now, handover_event)
unfolding set_computer_controller update apply_controller hand_over get_computer_session
    put_computer_session computer_session_ok known_kind known_channel handed_over
    computer_session_times time_from_ms ms validate_controller controller_error check_id cut_prefix
    lookup insert append_event append_checked with_defaults require_text stream_computer
    controller_event stream_head mirror_head insert_event run_id_from_stream
hands_over = refl

set_computer_controller-ok_example :
    let db' = (set_computer_controller fine unset take_over (small_db queued)).0 in
    (validate_controller take_over.controller ≡ none)
    × (old : ComputerSession ℕ) × (lookup "cmp_1" (small_db queued).computer_sessions ≡ some old)
    × (4 ≡ suc old.controller_epoch)
    × ((k : String)
        → lookup k db'.computer_sessions ≡ (
            if str_eq "cmp_1" k
            then some (handed_row take_over old)
            else lookup k (small_db queued).computer_sessions))
    × (1 ≡ next_seq (stream_computer "cmp_1") (small_db queued))
    × (db'.events ≡ event_times ms handover_event ∷ [])
set_computer_controller-ok_example =
    set_computer_controller-ok fine unset take_over (small_db queued) computer_now handover_event
      sessions_filed hands_over

not_committed :
    (set_computer_controller no_commit unset take_over (small_db queued)).1 ≡ err commit_failed
unfolding set_computer_controller update apply_controller hand_over get_computer_session
    put_computer_session computer_session_ok known_kind known_channel handed_over
    computer_session_times validate_controller controller_error check_id cut_prefix lookup
    append_event append_checked with_defaults require_text stream_computer controller_event
not_committed = refl

abbrev entry : ℕ → ℕ → Event ℕ
entry pos seq = record {
  pos = pos;
  stream = "run:run_1";
  seq = seq;
  moment = 7;
  session_id = "";
  project_id = "";
  source = "agent";
  kind = "run.output";
  turn_ref = "";
  correlation_id = "";
  payload = "";
  raw_ref = "";
}

abbrev two_events : Db
two_events = record (small_db running) { events = entry 2 2 ∷ entry 1 1 ∷ []; last_pos = 2 }

two_events-IsValid : IsValid two_events
unfolding journal_head stream_head
two_events-IsValid = record {
  runs_filed = (small_db-IsValid running).runs_filed;
  numbered = (refl, ground arith, (refl, ground arith, tt));
  head_bound = ground arith;
}

events_for_stream-contiguous_example :
    (validate_contiguous (events_for_stream two_events "run:run_1" 1 0) 1 ≡ none)
    × (length (events_for_stream two_events "run:run_1" 1 0)
        ≡ min_of (event_page_limit 0) (stream_head "run:run_1" (entry 2 2 ∷ entry 1 1 ∷ []) - 1))
events_for_stream-contiguous_example =
    events_for_stream-contiguous two_events "run:run_1" 1 0 two_events-IsValid

nothing-IsExclusive : IsExclusive []
unfolding lookup
nothing-IsExclusive i j a b h = absurd (ground arith)

abbrev no_runs : Db
no_runs = record (small_db queued) { runs = [] }

abbrev new_run : Run Time
new_run = run_times time_from_ms (run_row queued)

abbrev one_run : Db
one_run = record no_runs { runs = ("run_1", run_row queued) ∷ [] }

stored : put_run new_run no_runs ≡ ok (tt, one_run)
unfolding put_run run_times run_ok active_clash is_valid check_id cut_prefix lookup insert
    time_from_ms ms
stored = refl

put_run-IsExclusive_example : IsExclusive one_run.runs
put_run-IsExclusive_example =
    put_run-IsExclusive new_run no_runs one_run tt nothing-IsExclusive stored

IsWhole-run :
    IsWhole new_run.process_started_at
    × IsWhole new_run.created_at
    × IsWhole new_run.started_at
    × IsWhole new_run.finished_at
unfolding run_times time_from_ms
IsWhole-run = (no_time, millis 4, no_time, no_time)

abbrev upload : Grant Time
upload = record {
  id = "grant_1";
  verb = "cloud.upload";
  selector = "";
  scope = "always";
  session_id = "";
  project_id = "";
  run_id = "";
  approval_id = "";
  channel = "remote_human";
  expires_at = unset;
  created_at = unset;
  revoked_at = unset;
}

put_all-IsPermitted_example :
    Each GrantAt
      (put_all
        ((fine, upload) ∷ (fine, record upload { channel = "local_ui" }) ∷ [])
        (small_db queued)).grants
put_all-IsPermitted_example =
    put_all-IsPermitted ((fine, upload) ∷ (fine, record upload { channel = "local_ui" }) ∷ [])
      (small_db queued) (Each-nil GrantAt)
