-- ===== src/Agentops/RunStore.antt =====
-- internal/agentops/run_store.go and run_events.go: the database of runs and their events, and what
-- happens to it when a client starts. Times are milliseconds.
pub mod Recovered
pub mod Tests
use codebridge.Base.{
  ℕ, suc, Bool, true, false, ◌&&◌, ◌||◌, String, Option, none, some, List, [], ◌∷◌, ◌++◌, map,
  nat_eq, ltb, str_eq, any, if◌then◌else◌,
}
use codebridge.Runtime.Entities.{RunStatus, queued, running, interrupted}
use codebridge.Agentops.Runs.{RunSpec}

-- One row of agent_runs.
pub record AgentRun : Type 0 where
  pub id : String
  pub spec : RunSpec
  pub status : RunStatus
  pub started_at : ℕ
  pub finished_at : ℕ
  pub elapsed_ms : ℕ
  pub output : String
  pub err_text : String
  pub event_count : ℕ

-- One row of agent_run_events.
pub record StoredEvent : Type 0 where
  pub run_id : String
  pub seq : ℕ
  pub at_ms : ℕ
  pub source : String
  pub kind : String
  pub payload : String

pub record RunStore : Type 0 where
  pub runs : List AgentRun
  pub events : List StoredEvent

-- `INSERT OR REPLACE` by the primary key
unfoldable pub upsert : AgentRun → List AgentRun → List AgentRun
upsert snap [] = snap ∷ []
upsert snap (r ∷ runs) = if str_eq r.id snap.id then snap ∷ runs else r ∷ upsert snap runs

unfoldable pub get : String → List AgentRun → Option AgentRun
get id [] = none
get id (r ∷ runs) = if str_eq r.id id then some r else get id runs

abbrev pub has_key : String → ℕ → StoredEvent → Bool
has_key run_id seq ev = str_eq ev.run_id run_id && nat_eq ev.seq seq

unfoldable pub append_event : StoredEvent → List StoredEvent → List StoredEvent
append_event ev [] = ev ∷ []
append_event ev (e ∷ events) =
    if has_key ev.run_id ev.seq e then ev ∷ events else e ∷ append_event ev events

-- The row with this key.
unfoldable pub find_event : String → ℕ → List StoredEvent → Option StoredEvent
find_event run_id seq [] = none
find_event run_id seq (e ∷ events) =
    if has_key run_id seq e then some e else find_event run_id seq events

abbrev pub larger : ℕ → ℕ → ℕ
larger a b = if ltb a b then b else a

-- `COALESCE(MAX(seq), 0)`
unfoldable pub last_seq : String → List StoredEvent → ℕ
last_seq run_id [] = 0
last_seq run_id (e ∷ events) =
    let rest = last_seq run_id events in if str_eq e.run_id run_id then larger e.seq rest else rest

abbrev pub is_stale : RunStatus → Bool
is_stale queued = true
is_stale running = true
is_stale _ = false

unfoldable pub stale_ids : List AgentRun → List String
stale_ids [] = []
stale_ids (r ∷ runs) = if is_stale r.status then r.id ∷ stale_ids runs else stale_ids runs

abbrev pub interrupted_event : ℕ → String → ℕ → StoredEvent
interrupted_event now id seq = record {
  run_id = id;
  seq = seq;
  at_ms = now;
  source = "codebridge";
  kind = "run.interrupted";
  payload = "";
}

-- `INSERT OR IGNORE`
unfoldable pub insert_or_ignore : StoredEvent → List StoredEvent → List StoredEvent
insert_or_ignore ev events =
    if any (has_key ev.run_id ev.seq) events then events else events ++ (ev ∷ [])

-- The loop of recordInterruptedRunEvents over the ids.
unfoldable pub record_interrupted : ℕ → List String → List StoredEvent → List StoredEvent
unfolding last_seq insert_or_ignore
record_interrupted now [] events = events
record_interrupted now (id ∷ ids) events =
    record_interrupted now ids
      (insert_or_ignore (interrupted_event now id (suc (last_seq id events))) events)

abbrev pub mark_interrupted : AgentRun → AgentRun
mark_interrupted r = if is_stale r.status then record r { status = interrupted } else r

-- `updated` says whether the last statement worked; the events are there in both cases. The store
-- is `none` where opening it failed, and the state of the database stands beside it.
unfoldable pub open_run_store : ℕ → Bool → RunStore → RunStore × Option RunStore
unfolding record_interrupted stale_ids
open_run_store now updated db =
    let events = record_interrupted now (stale_ids db.runs) db.events in
    let recovered : RunStore = record { runs = map mark_interrupted db.runs; events = events } in
    if updated then (recovered, some recovered) else (record db { events = events }, none)
