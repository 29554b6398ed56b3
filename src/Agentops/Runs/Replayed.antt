-- ===== src/Agentops/Runs/Replayed.antt =====
-- internal/agentops/run_events.go: the events that a client asks for again, against all that a run
-- has appended.
use codebridge.Base.{String, ℕ, suc, ◌≡◌, Bool, List, [], ◌∷◌, ltb, str_eq, if◌then◌else◌, length}
use codebridge.Runtime.Entities.{Time}
use codebridge.Agentops.Runs.{RunEvent, RunState, append_runtime_event}
use codebridge.Agentops.Runs.Recent.{IsRing}

-- What a caller of `append_runtime_event` gives.
pub record Entry : Type 0 where
  pub moment : Time
  pub source : String
  pub kind : String
  pub payload : String

-- The entry as the event number `seq` of the run `id`.
abbrev pub numbered : String → ℕ → Entry → RunEvent
numbered id seq e = record {
  run_id = id;
  seq = seq;
  moment = e.moment;
  source = if str_eq e.source "" then "codebridge" else e.source;
  kind = e.kind;
  payload = e.payload;
}

-- The events of a run after its first `n`.
unfoldable pub logged : String → ℕ → List Entry → List RunEvent
logged id n [] = []
logged id n (e ∷ entries) = numbered id (suc n) e ∷ logged id (suc n) entries

unfoldable pub append_all : RunState → List Entry → RunState
append_all rs [] = rs
append_all rs (e ∷ entries) =
    append_all (append_runtime_event rs e.moment e.source e.kind e.payload) entries

-- What a run has appended: all its events, and how many.
pub record HasEvents (rs : RunState) (evs : List RunEvent) : Type 0 where
  pub ring : IsRing rs.journal evs
  pub count : rs.event_seq ≡ length evs

abbrev pub later : ℕ → RunEvent → Bool
later after_seq ev = ltb after_seq ev.seq
