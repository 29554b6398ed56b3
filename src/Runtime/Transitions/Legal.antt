-- ===== src/Runtime/Transitions/Legal.antt =====
-- Which transitions are refused, and that a refused one changes nothing.
use codebridge.Base.{
  ℕ, String, true, false, ◌≡◌, refl, sym, ap, ◌∙◌, some, List, [], ◌∷◌, arith, str_eq, eq_iff,
  Bool-cases, some-inj, ◌⊎◌, ◌↔◌, Option-cases, inl, inr,
}
use mathlib.Core.Bool.{false≢true}
use codebridge.Base.Map.{lookup}
use codebridge.Runtime.Entities.{
  Time, is_zero, is_valid, is_terminal, status_text, RunStatus, queued, running, completed, failed,
  cancelled, timeout, interrupted, unknown_status, Run, Event, Error, check_id,
}
use codebridge.Runtime.Store.{Db, Result, ok, err, Fate}
use codebridge.Runtime.Rollback.{update-err}
use codebridge.Runtime.Journal.Numbered.{IsValid}
use codebridge.Runtime.Transitions.Committed.{transition_run-ok}
use codebridge.Runtime.Transitions.{
  can_transition, same_status, run_transitions, RunTransition, apply_transition, transition_run,
}

-- The status in words that the state machine is about.
abbrev pub Leaves : RunStatus → RunStatus → Type 0
Leaves from to =
    (from ≡ queued × (to ≡ running ⊎ to ≡ cancelled))
    ⊎ (from ≡ running
        × (to ≡ completed ⊎ (to ≡ failed ⊎ (to ≡ cancelled ⊎ (to ≡ timeout ⊎ to ≡ interrupted)))))

pub transition_run-err :
    (fate : Fate) (now : Time) (tr : RunTransition) (db : Db) (e : Error)
    → (transition_run fate now tr db).1 ≡ err e
    → (transition_run fate now tr db).0 ≡ db
unfolding transition_run
transition_run-err fate now tr db e h = elim (Option-cases (check_id tr.run_id "run_")) [
  | inr (f, given) ↦ ground arith
  | inl given ↦ elim (Bool-cases (is_valid tr.status)) [
    | inr f ↦ ground arith
    | inl valid ↦ elim (Bool-cases (is_zero tr.moment)) [
      | inl f ↦ ground arith
      | inr set ↦
          rw (given, valid, set)
            (update-err fate (apply_transition now tr) db e (rw (given, valid, set) at h))
    ]
  ]
]

from_queued :
    (to : RunStatus) → is_valid to ≡ true → (can_transition queued to ≡ true) ↔ Leaves queued to
unfolding can_transition same_status run_transitions status_text is_valid
from_queued queued k = ground arith
from_queued running k = ground arith
from_queued completed k = ground arith
from_queued failed k = ground arith
from_queued cancelled k = ground arith
from_queued timeout k = ground arith
from_queued interrupted k = ground arith
from_queued (unknown_status s) k = ground arith

from_running :
    (to : RunStatus) → is_valid to ≡ true → (can_transition running to ≡ true) ↔ Leaves running to
unfolding can_transition same_status run_transitions status_text is_valid
from_running queued k = ground arith
from_running running k = ground arith
from_running completed k = ground arith
from_running failed k = ground arith
from_running cancelled k = ground arith
from_running timeout k = ground arith
from_running interrupted k = ground arith
from_running (unknown_status s) k = ground arith

pub terminal-stays :
    (from to : RunStatus) → is_terminal from ≡ true → can_transition from to ≡ false
unfolding can_transition run_transitions is_terminal
terminal-stays queued to h = ground arith
terminal-stays running to h = ground arith
terminal-stays completed to h = refl
terminal-stays failed to h = refl
terminal-stays cancelled to h = refl
terminal-stays timeout to h = refl
terminal-stays interrupted to h = refl
terminal-stays (unknown_status s) to h = refl

-- Between statuses that exist, `CanTransition` allows: queued to running or cancelled, running to
-- completed, failed, cancelled, timeout or interrupted, and nothing else.
pub can_transition_iff :
    (from to : RunStatus)
    → is_valid from ≡ true
    → is_valid to ≡ true
    → (can_transition from to ≡ true) ↔ Leaves from to
unfolding is_valid is_terminal
can_transition_iff queued to h k = from_queued to k
can_transition_iff running to h k = from_running to k
can_transition_iff completed to h k = ground (arith, terminal-stays completed to refl)
can_transition_iff failed to h k = ground (arith, terminal-stays failed to refl)
can_transition_iff cancelled to h k = ground (arith, terminal-stays cancelled to refl)
can_transition_iff timeout to h k = ground (arith, terminal-stays timeout to refl)
can_transition_iff interrupted to h k = ground (arith, terminal-stays interrupted to refl)
can_transition_iff (unknown_status s) to h k = ground arith

-- What happens to a series of transitions, each in its own transaction.
pub record Attempt : Type 0 where
  pub fate : Fate
  pub now : Time
  pub transition : RunTransition

unfoldable pub attempt_all : List Attempt → Db → Db
attempt_all [] db = db
attempt_all (a ∷ more) db = attempt_all more (transition_run a.fate a.now a.transition db).0

attempt-final :
    (a : Attempt) (db : Db) (k : String) (r : Run ℕ) (o : Result (Run Time × Event Time))
    → (transition_run a.fate a.now a.transition db).1 ≡ o
    → IsValid db
    → lookup k db.runs ≡ some r
    → is_terminal r.status ≡ true
    → IsValid (transition_run a.fate a.now a.transition db).0
      × (lookup k (transition_run a.fate a.now a.transition db).0.runs ≡ some r)
attempt-final a db k r (err e) h v there final =
    let same = transition_run-err a.fate a.now a.transition db e h in (rw same v, rw same there)
attempt-final a db k r (ok (run, ev)) h v there final =
    let (old, found, legal, stream, seq, events, rows, valid) =
      transition_run-ok a.fate a.now a.transition db run ev v h in
    (
      valid,
      elim (Bool-cases (str_eq a.transition.run_id k)) [
        | inr e ↦ rows k ∙ rw e there
        | inl e ↦
            let same : old ≡ r = some-inj (
              sym found
              ∙ ap (λ i. lookup i db.runs) ((eq_iff a.transition.run_id k).0 e)
              ∙ there) in
            absurd (
              false≢true (
                sym (
                  terminal-stays old.status a.transition.status
                    (ap (λ q. is_terminal q.status) same ∙ final))
                ∙ legal))
      ],
    )

-- In a valid database, a run that is completed, failed, cancelled, timed out or interrupted stays
-- as it is, whatever transitions are tried after.
pub attempt_all-terminal :
    (more : List Attempt) (db : Db) (k : String) (r : Run ℕ)
    → IsValid db
    → lookup k db.runs ≡ some r
    → is_terminal r.status ≡ true
    → lookup k (attempt_all more db).runs ≡ some r
unfolding attempt_all
attempt_all-terminal [] db k r v there final = there
attempt_all-terminal (a ∷ more) db k r v there final =
    let step = attempt-final a db k r _ refl v there final in
    attempt_all-terminal more (transition_run a.fate a.now a.transition db).0 k r step.0 step.1
      final
