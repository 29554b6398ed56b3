-- ===== src/Agentops/Runs/Lifecycle.antt =====
-- The life of a run as a step relation: what can happen to it under the manager's lock.
use codebridge.Base.{
  String, Bool, true, false, ◌≡◌, refl, sym, ap, ◌∙◌, arith, str_eq, Bool-cases, inl, inr,
}
use codebridge.Base.Text.{Text}
use codebridge.Runtime.Entities.{
  Time, RunStatus, queued, running, completed, failed, cancelled, timeout, interrupted,
  unknown_status, is_terminal, status_text,
}
use codebridge.Runtime.Transitions.{can_transition, same_status, run_transitions}
use mathlib.Core.Path.{subst}
use codebridge.Runtime.Transitions.Legal.{terminal-stays}
use codebridge.Agentops.Runs.{
  RunState, ExecContext, live, deadline_exceeded, canceled, append_runtime_event, moved_to,
  transition, finish, status_from_result, reported, finish_outcome, record_event, cancel,
}

-- A slot is won, a line arrives, a caller cancels, the queue is left, or the executor is back.
pub data Step : RunState → RunState → Type 0 where
  starts : {rs : RunState} (now : Time) → Step rs (transition rs now running).0
  prints : {rs : RunState} (now : Time) (line : String) → Step rs (record_event rs now line)
  cancels : {rs : RunState} → Step rs (cancel rs)
  leaves_queue : {rs : RunState} (now : Time) → Step rs (finish rs now cancelled "" "")
  returns :
      {rs : RunState} (now : Time) (context : ExecContext) (status : Text)
      (unknown output err : String)
      → Step rs (finish_outcome rs now context status unknown output err)

-- What outsiders read of a run that is over.
abbrev pub IsSame : RunState → RunState → Type 0
IsSame a b =
    (a.status ≡ b.status)
    × (a.output ≡ b.output)
    × (a.err_text ≡ b.err_text)
    × (a.finished_at ≡ b.finished_at)
    × (a.events ≡ b.events)
    × (a.journal ≡ b.journal)
    × (a.event_seq ≡ b.event_seq)
    × (a.done ≡ b.done)

finish-terminal :
    (rs : RunState) (now : Time) (status : RunStatus) (output err : String)
    → is_terminal rs.status ≡ true
    → finish rs now status output err ≡ rs
unfolding finish
finish-terminal rs now status output err h = rw h refl

status_from_result-terminal : (s : Text) → is_terminal (status_from_result s).0 ≡ true
unfolding status_from_result is_terminal
status_from_result-terminal s = ground arith

-- Whatever the executor reports, `finishOutcome` is one call of `finish` with a terminal status.
reported-known :
    (rs : RunState) (now : Time) (s : RunStatus × Bool) (unknown output : String)
    → s.1 ≡ false
    → reported rs now s unknown output ≡ finish rs now s.0 output ""
reported-known rs now (status, true) unknown output h = ground arith
reported-known rs now (status, false) unknown output h = refl

reported-unknown :
    (rs : RunState) (now : Time) (s : RunStatus × Bool) (unknown output : String)
    → s.1 ≡ true
    → reported rs now s unknown output ≡ finish rs now s.0 output unknown
reported-unknown rs now (status, true) unknown output h = refl
reported-unknown rs now (status, false) unknown output h = ground arith

pub finish_outcome-finish :
    (rs : RunState) (now : Time) (context : ExecContext) (status : Text)
    (unknown output err : String)
    → (to : RunStatus) × (text : String) × (is_terminal to ≡ true)
      × (finish_outcome rs now context status unknown output err ≡ finish rs now to output text)
unfolding finish_outcome is_terminal
finish_outcome-finish rs now deadline_exceeded status unknown output err = (timeout, "", refl, refl)
finish_outcome-finish rs now canceled status unknown output err = (cancelled, "", refl, refl)
finish_outcome-finish rs now live status unknown output err = elim (Bool-cases (str_eq err "")) [
  | inr e ↦ (failed, err, refl, rw e refl)
  | inl e ↦
      let ended = status_from_result-terminal status in
      elim (Bool-cases (status_from_result status).1) [
        | inl odd ↦ (
          (status_from_result status).0,
          unknown,
          ended,
          rw e (reported-unknown rs now _ unknown output odd),
        )
        | inr known ↦ (
          (status_from_result status).0,
          "",
          ended,
          rw e (reported-known rs now _ unknown output known),
        )
      ]
]

-- Many steps.
pub data Steps : RunState → RunState → Type 0 where
  none_yet : {rs : RunState} → Steps rs rs
  then_step : {a b c : RunState} → Steps a b → Step b c → Steps a c

IsSame-trans : (a b c : RunState) → IsSame a b → IsSame b c → IsSame a c
IsSame-trans a b c (s, o, e, f, v, j, q, d) (s', o', e', f', v', j', q', d') =
    (s ∙ s', o ∙ o', e ∙ e', f ∙ f', v ∙ v', j ∙ j', q ∙ q', d ∙ d')

IsSame-eq : (a b : RunState) → b ≡ a → IsSame a b
IsSame-eq a b e = subst (IsSame a) (sym e) (refl, refl, refl, refl, refl, refl, refl, refl)

Step-IsSame : (a b : RunState) → is_terminal a.status ≡ true → Step a b → IsSame a b
unfolding cancel transition record_event
Step-IsSame a _ h (starts now) =
    IsSame-eq a (transition a now running).0 (rw (terminal-stays a.status running h) refl)
Step-IsSame a _ h (prints now line) = IsSame-eq a (record_event a now line) (rw h refl)
Step-IsSame a _ h cancels = (refl, refl, refl, refl, refl, refl, refl, refl)
Step-IsSame a _ h (leaves_queue now) = IsSame-eq a _ (finish-terminal a now cancelled "" "" h)
Step-IsSame a _ h (returns now context status unknown output err) =
    let (to, text, ended, one) = finish_outcome-finish a now context status unknown output err in
    IsSame-eq a _ (one ∙ finish-terminal a now to output text h)

-- A run that is over keeps its status, output, error, finish time, lines and events, whatever
-- happens later.
pub Steps-IsSame : (a b : RunState) → is_terminal a.status ≡ true → Steps a b → IsSame a b
Steps-IsSame a _ h none_yet = IsSame-eq a a refl
Steps-IsSame a _ h (then_step {b = b} {c = c} before last) =
    let first = Steps-IsSame a b h before in
    IsSame-trans a b c first (Step-IsSame b c (ap is_terminal (sym first.0) ∙ h) last)

ending : (to : RunStatus) → is_terminal to ≡ true → can_transition running to ≡ true
unfolding can_transition same_status run_transitions status_text is_terminal
ending queued h = ground arith
ending running h = ground arith
ending completed h = refl
ending failed h = refl
ending cancelled h = refl
ending timeout h = refl
ending interrupted h = refl
ending (unknown_status s) h = ground arith

not_over : is_terminal running ≡ false
unfolding is_terminal
not_over = refl

finish-ends :
    (rs : RunState) (now : Time) (to : RunStatus) (output err : String)
    → rs.status ≡ running
    → is_terminal to ≡ true
    → let rs' = finish rs now to output err in
      (rs'.status ≡ to) × (rs'.done ≡ true) × (rs'.output ≡ output) × (rs'.err_text ≡ err)
unfolding finish transition moved_to append_runtime_event
finish-ends rs now to output err h ended =
    rw (h, not_over, ending to ended, ended) (refl, refl, refl, refl)

pub ends : (is_terminal timeout ≡ true) × (is_terminal cancelled ≡ true)
unfolding is_terminal
ends = (refl, refl)

deadline :
    (rs : RunState) (now : Time) (context : ExecContext) (status : Text)
    (unknown output err : String)
    → rs.status ≡ running
    → context ≡ deadline_exceeded
    → (finish_outcome rs now context status unknown output err).status ≡ timeout
unfolding finish_outcome
deadline rs now context status unknown output err h e =
    rw e (finish-ends rs now timeout output "" h ends.0).0

stopping :
    (rs : RunState) (now : Time) (context : ExecContext) (status : Text)
    (unknown output err : String)
    → rs.status ≡ running
    → context ≡ canceled
    → (finish_outcome rs now context status unknown output err).status ≡ cancelled
unfolding finish_outcome
stopping rs now context status unknown output err h e =
    rw e (finish-ends rs now cancelled output "" h ends.1).0

-- When the executor is back, a running run is over whatever it reports: its channel is closed and
-- its output is the executor's. An expired context makes it a timeout, a cancelled one cancelled.
pub finish_outcome-ends :
    (rs : RunState) (now : Time) (context : ExecContext) (status : Text)
    (unknown output err : String)
    → rs.status ≡ running
    → let rs' = finish_outcome rs now context status unknown output err in
      (is_terminal rs'.status ≡ true)
      × (rs'.done ≡ true)
      × (rs'.output ≡ output)
      × (context ≡ deadline_exceeded → rs'.status ≡ timeout)
      × (context ≡ canceled → rs'.status ≡ cancelled)
finish_outcome-ends rs now context status unknown output err h =
    let (to, text, ended, one) = finish_outcome-finish rs now context status unknown output err in
    let done = finish-ends rs now to output text h ended in
    (
      ap (λ r. is_terminal r.status) one ∙ ap is_terminal done.0 ∙ ended,
      ap (λ r. r.done) one ∙ done.1,
      ap (λ r. r.output) one ∙ done.2,
      λ e. deadline rs now context status unknown output err h e,
      λ e. stopping rs now context status unknown output err h e,
    )
