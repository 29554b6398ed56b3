-- ===== src/Manager/Tests.antt =====
-- The theorems on the manager at small registries.
use codebridge.Base.{
  ℕ, suc, String, true, false, ◌≡◌, ◌≢◌, refl, none, some, List, [], ◌∷◌, arith, str_ne, map, ◌≤◌,
  ◌+◌,
}
use codebridge.Base.Map.{lookup, insert, Each-nil, Each-insert}
use codebridge.Base.Text.{codes, is_empty, trim_space, trim_left, trim_right, is_space}
use codebridge.Manager.Registry.{workspaces}
use codebridge.Manager.Calls.{start_call, sent}
use codebridge.Manager.Connections.{
  Device, AgentConn, AgentResponse, Registry, new_conn, err, offline_or_unknown,
}
use codebridge.Manager.Registry.Tenancy.{IsForeign, start_call-foreign}
use codebridge.Manager.Registry.Delivery.{pending}
use codebridge.Manager.Registry.Replacing.{IsMade}
use codebridge.Manager.Calls.Slots.{Op, puts, starts, delivers, finishes}
use codebridge.Manager.Accounts.{mapped}
use codebridge.Base.Int.{pos}
use codebridge.Manager.RunEvents.{
  RunEvent, RunEventKey, ok, key_eq, run_key, accept, head_of, missing,
}
use codebridge.Manager.RunEvents.Contiguous.{
  Delivery, accept_all, taken_of, nothing_yet, accept_all-contiguous,
}
use codebridge.Manager.RunEvents.Pending.{has}
use codebridge.Manager.RunEvents.Replay.{IsSuffix, sent_by, replay-closes}

abbrev laptop : Device
laptop = record {
  id = "d1";
  name = "laptop";
  account_id = "alice";
  version = "1";
  online = true;
  connected_at = 0;
  last_seen = 0;
  workspaces = [];
  tool_policy = none;
}

-- One connection, with one pending call.
abbrev one_conn : AgentConn
one_conn = record (new_conn laptop) { pend = ("1", none) ∷ []; sem = 1 }

abbrev one_device : Registry
one_device = record {
  devices = ("d1", 0) ∷ [];
  max_inflight = 8;
  seq = 1;
  heap = λ i. one_conn;
  next = 1;
}

abbrev answer : String → AgentResponse
answer body = record { ok = true; body = body; error = "" }

print : ℕ → String
print n = "2"

abbrev caller : String
caller = "bob"

foreign : IsForeign one_device caller "d1"
foreign c h = str_ne refl

start_call-foreign_example :
    (start_call one_device print "bob" "d1" sent ≡ (one_device, err (offline_or_unknown "d1")))
    × (workspaces one_device "bob" "d1" ≡ err (offline_or_unknown "d1"))
start_call-foreign_example = start_call-foreign one_device print "bob" "d1" sent foreign

waits : (pending one_device 0 "1" ≡ some none) × (lookup "d1" one_device.devices ≡ some 0)
unfolding lookup
waits = (refl, refl)

one_device-IsMade : IsMade one_device
unfolding insert
one_device-IsMade = Each-insert _ "d1" 0 [] (omega arith) (Each-nil _)

other_conn : 0 ≢ suc 0
other_conn e = ground arith

default_subject :
    (is_empty (trim_space (codes " default")) ≡ false)
    × (trim_space (mapped [] (trim_space (codes " default"))) ≡ [])
unfolding trim_space trim_left trim_right is_space mapped
default_subject = (refl, refl)

-- A call, its answer, its end, and a reconnection.
abbrev exchange : List Op
exchange =
    starts "alice" "d1" sent
    ∷ delivers 0 "2" (answer "a")
    ∷ finishes (record { conn = 0; request_id = "2" }) false
    ∷ puts laptop
    ∷ []

abbrev line : ℕ → RunEvent
line n = record {
  run_id = "r";
  seq = pos n;
  moment = 0;
  source = "";
  kind = "output";
  payload = "";
}

-- The third event is early, the second one late, and the first comes twice.
abbrev deliveries : List Delivery
deliveries = map (sent_by "alice" "d1") (line 1 ∷ line 3 ∷ line 1 ∷ line 2 ∷ [])

abbrev run_r : RunEventKey
run_r = run_key "alice" "d1" "r"

reached_three : head_of (accept_all nothing_yet deliveries) "alice" "d1" "r" ≡ 3
unfolding head_of accept_all accept key_eq
reached_three = refl

accept_all-contiguous_example :
    let head = head_of (accept_all nothing_yet deliveries) "alice" "d1" "r" in
    ((i : ℕ) → 1 ≤ i → i ≤ head → has i (taken_of run_r deliveries) ≡ true)
    × (has (suc head) (taken_of run_r deliveries) ≡ false)
accept_all-contiguous_example = accept_all-contiguous deliveries "alice" "d1" "r"

next_two :
    IsSuffix "r"
      (head_of (accept_all nothing_yet deliveries) "alice" "d1" "r")
      (line 4 ∷ line 5 ∷ [])
next_two = rw reached_three (refl, refl, refl, (refl, refl, refl, tt))

replay-closes_example :
    let runs = accept_all nothing_yet deliveries in
    let last = head_of runs "alice" "d1" "r" + 2 in
    let runs' = accept_all runs (map (sent_by "alice" "d1") (line 4 ∷ line 5 ∷ [])) in
    (last ≤ head_of runs' "alice" "d1" "r")
    × (missing runs' "alice" "d1"
          (record { run_id = "r"; last_seq = pos last; status = "running" } ∷ [])
        ≡ ok [])
replay-closes_example =
    replay-closes deliveries "alice" "d1" "r" (line 4 ∷ line 5 ∷ []) "running" refl refl refl
      next_two
