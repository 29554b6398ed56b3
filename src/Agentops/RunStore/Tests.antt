-- ===== src/Agentops/RunStore/Tests.antt =====
-- The theorems on the run store at a small database.
use codebridge.Base.{ℕ, suc, ◌≡◌, refl, true, ◌&&◌, String, some, [], ◌∷◌, nat_eq, if◌then◌else◌}
use codebridge.Runtime.Entities.{RunStatus, running, completed}
use codebridge.Agentops.RunStore.{
  AgentRun, RunStore, find_event, last_seq, stale_ids, interrupted_event, open_run_store,
}
use codebridge.Agentops.RunStore.Recovered.{among, ids_of, IsDistinct, open_run_store-recovers}

abbrev run_with : String → RunStatus → AgentRun
run_with id status = record {
  id = id;
  spec = record {
    workspace = "w";
    task = "t";
    client = "c";
    agent = "";
    model = "";
    thinking = "";
    timeout_seconds = 0;
  };
  status = status;
  started_at = 1;
  finished_at = 0;
  elapsed_ms = 0;
  output = "";
  err_text = "";
  event_count = 0;
}

-- One run is over, one was running when the client died.
abbrev left_over : RunStore
left_over = record {
  runs = run_with "a" completed ∷ run_with "b" running ∷ [];
  events = interrupted_event 1 "b" 1 ∷ [];
}

two_ids : IsDistinct (ids_of left_over.runs)
two_ids = (refl, (refl, tt))

b_interrupted :
    find_event "b" 2 (open_run_store 9 true left_over).0.events ≡ some (interrupted_event 9 "b" 2)
unfolding open_run_store find_event
b_interrupted = refl

open_run_store-recovers_example :
    (stale_ids (open_run_store 9 true left_over).0.runs ≡ [])
    × ((id : String) (seq : ℕ)
        → find_event id seq (open_run_store 9 true left_over).0.events ≡ (
            if among id (stale_ids left_over.runs)
              && nat_eq seq (suc (last_seq id left_over.events))
            then some (interrupted_event 9 id seq)
            else find_event id seq left_over.events))
open_run_store-recovers_example = open_run_store-recovers 9 left_over two_ids
