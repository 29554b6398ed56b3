-- ===== src/Agentops/Runs/Tests.antt =====
-- The theorems on a run at a short life.
use codebridge.Base.{◌-◌, String, true, false, ◌≡◌, refl, List, [], ◌∷◌, arith, length, drop}
use codebridge.Base.Text.{codes}
use codebridge.Runtime.Entities.{
  Time, unset, at, completed, running, timeout, cancelled, is_terminal,
}
use codebridge.Agentops.Runs.{
  RunSpec, RunState, RunEvent, deadline_exceeded, canceled, start_run, append_runtime_event,
  record_event, recent_events, finish_outcome, cancel,
}
use codebridge.Agentops.Rings.{push}
use codebridge.Agentops.Runs.Recent.{HasLines, record_all, page, recent_events-record_all}
use codebridge.Agentops.Runs.Replayed.{Entry}
use codebridge.Agentops.Runs.Lifecycle.{
  none_yet, then_step, prints, cancels, IsSame, Steps-IsSame, finish_outcome-ends,
}

abbrev spec : RunSpec
spec = record {
  workspace = "w";
  task = "t";
  client = "omp";
  agent = "";
  model = "";
  thinking = "";
  timeout_seconds = 0;
}

abbrev two_slots : List String
two_slots = "" ∷ "" ∷ []

abbrev fresh : RunState
fresh = start_run "run_1" spec unset two_slots []

fresh-HasLines : HasLines fresh []
unfolding start_run append_runtime_event push
fresh-HasLines = record {
  ring = record {
    room = omega arith;
    count = refl;
    fill = refl;
    held = λ i below near. absurd (omega arith);
  };
  total = refl;
}

fresh_live : is_terminal fresh.status ≡ false
unfolding start_run append_runtime_event is_terminal
fresh_live = refl

abbrev three_lines : List (Time × String)
three_lines = (unset, "a") ∷ (unset, "b") ∷ (unset, "c") ∷ []

abbrev texts : List String
texts = "a" ∷ "b" ∷ "c" ∷ []

recent_events-record_all_example :
    recent_events (record_all fresh three_lines) 0
    ≡ drop (3 - page 0 3 (length ((record_all fresh three_lines).events).slots)) texts
recent_events-record_all_example =
    recent_events-record_all fresh three_lines 0 fresh_live fresh-HasLines

abbrev over : RunState
over = record fresh { status = completed; done = true }

over_ended : is_terminal over.status ≡ true
unfolding is_terminal
over_ended = refl

Steps-IsSame_example : IsSame over (record_event (cancel over) unset "late")
Steps-IsSame_example =
    Steps-IsSame over (record_event (cancel over) unset "late") over_ended
      (then_step (then_step none_yet cancels) (prints unset "late"))

abbrev busy : RunState
busy = record fresh { status = running; started_at = at 5 }

finish_outcome-ends_example :
    let rs' = finish_outcome busy (at 9) deadline_exceeded (codes "completed") "?" "out" "" in
    (is_terminal rs'.status ≡ true)
    × (rs'.done ≡ true)
    × (rs'.output ≡ "out")
    × (deadline_exceeded ≡ deadline_exceeded → rs'.status ≡ timeout)
    × (deadline_exceeded ≡ canceled → rs'.status ≡ cancelled)
finish_outcome-ends_example =
    finish_outcome-ends busy (at 9) deadline_exceeded (codes "completed") "?" "out" "" refl

abbrev entry : String → Entry
entry kind = record { moment = unset; source = "codebridge"; kind = kind; payload = "" }

abbrev blank : RunEvent
blank = record { run_id = ""; seq = 0; moment = unset; source = ""; kind = ""; payload = "" }

abbrev journaled : RunState
journaled = start_run "run_1" spec unset two_slots (blank ∷ blank ∷ [])

abbrev queued_first : List Entry
queued_first = entry "run.queued" ∷ []

-- Three events, and a fourth that was there: the ring of two has lost the first two.
abbrev three_more : List Entry
three_more = entry "run.started" ∷ entry "run.output" ∷ entry "run.completed" ∷ []
