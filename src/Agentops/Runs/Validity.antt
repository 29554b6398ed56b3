-- ===== src/Agentops/Runs/Validity.antt =====
-- What holds of a run between two steps.
use codebridge.Base.{
  String, Bool, true, false, ◌≡◌, ◌⊎◌, refl, sym, List, if◌then◌else◌, Bool-cases, inl, inr,
}
use codebridge.Runtime.Entities.{Time, RunStatus, queued, running, cancelled, is_terminal}
use codebridge.Runtime.Transitions.{can_transition}
use mathlib.Core.Path.{subst}
use codebridge.Agentops.Runs.{
  RunState, RunSpec, RunEvent, append_runtime_event, moved_to, transition, start_run, outcome,
  life_stopped, finish, record_event, cancel,
}
use codebridge.Agentops.Runs.Lifecycle.{
  Step, starts, prints, cancels, leaves_queue, returns, Steps, none_yet, then_step,
  finish_outcome-finish, ends,
}

abbrev pub IsKnown : RunStatus → Type 0
IsKnown s = (s ≡ queued) ⊎ ((s ≡ running) ⊎ (is_terminal s ≡ true))

-- The channel is closed just when the run is over, and its status is one of the seven.
pub record IsValid (rs : RunState) : Type 0 where
  pub closed : rs.done ≡ is_terminal rs.status
  pub known : IsKnown rs.status

transition-IsValid :
    (rs : RunState) (now : Time) (to : RunStatus)
    → IsKnown to
    → IsValid rs
    → IsValid (transition rs now to).0
unfolding transition moved_to append_runtime_event
transition-IsValid rs now to k v = elim (Bool-cases (can_transition rs.status to)) [
  | inl e ↦ rw e (record { closed = refl; known = k })
  | inr e ↦ rw e v
]

life_stopped-IsValid : (rs : RunState) → IsValid rs → IsValid (life_stopped rs)
life_stopped-IsValid rs v = record { closed = v.closed; known = v.known }

branch-IsValid : (b : Bool) (x y : RunState) → IsValid x → IsValid y → IsValid (if b then x else y)
branch-IsValid true x y h k = h
branch-IsValid false x y h k = k

finish-IsValid :
    (rs : RunState) (now : Time) (to : RunStatus) (output err : String)
    → is_terminal to ≡ true
    → IsValid rs
    → IsValid (finish rs now to output err)
unfolding finish
finish-IsValid rs now to output err ended v =
    let rs1 = outcome rs output err in
    let v1 : IsValid rs1 = record { closed = v.closed; known = v.known } in
    let first = transition-IsValid rs1 now to (inr (inr ended)) v1 in
    let second = transition-IsValid rs1 now cancelled (inr (inr ends.1)) v1 in
    branch-IsValid (is_terminal rs.status) _ _ v (
      branch-IsValid (can_transition rs.status to) _ _ (life_stopped-IsValid _ first)
        (branch-IsValid (can_transition rs.status cancelled) _ _ (life_stopped-IsValid _ second) v))

record_event-IsValid :
    (rs : RunState) (now : Time) (line : String) → IsValid rs → IsValid (record_event rs now line)
unfolding record_event append_runtime_event
record_event-IsValid rs now line v = elim (Bool-cases (is_terminal rs.status)) [
  | inl e ↦ rw e v
  | inr e ↦ rw e (record { closed = v.closed; known = v.known })
]

Step-IsValid : (a b : RunState) → IsValid a → Step a b → IsValid b
unfolding cancel
Step-IsValid a _ v (starts now) = transition-IsValid a now running (inr (inl refl)) v
Step-IsValid a _ v (prints now line) = record_event-IsValid a now line v
Step-IsValid a _ v cancels = record { closed = v.closed; known = v.known }
Step-IsValid a _ v (leaves_queue now) = finish-IsValid a now cancelled "" "" ends.1 v
Step-IsValid a _ v (returns now context status unknown output err) =
    let (to, text, ended, one) = finish_outcome-finish a now context status unknown output err in
    subst IsValid (sym one) (finish-IsValid a now to output text ended v)

Steps-IsValid : (a b : RunState) → IsValid a → Steps a b → IsValid b
Steps-IsValid a _ v none_yet = v
Steps-IsValid a _ v (then_step {b = b} {c = c} before last) =
    Step-IsValid b c (Steps-IsValid a b v before) last

start_run-IsValid :
    (id : String) (spec : RunSpec) (now : Time) (lines : List String) (journal : List RunEvent)
    → IsValid (start_run id spec now lines journal)
unfolding start_run append_runtime_event is_terminal
start_run-IsValid id spec now lines journal = record { closed = refl; known = inl refl }

-- However a run that was started goes on, its channel is closed just when it is over, and it is
-- queued, running or over.
pub start_run-Steps-IsValid :
    (id : String) (spec : RunSpec) (now : Time) (lines : List String) (journal : List RunEvent)
    (rs : RunState)
    → Steps (start_run id spec now lines journal) rs
    → IsValid rs
start_run-Steps-IsValid id spec now lines journal rs steps =
    Steps-IsValid (start_run id spec now lines journal) rs
      (start_run-IsValid id spec now lines journal) steps
