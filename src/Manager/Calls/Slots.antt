-- ===== src/Manager/Calls/Slots.antt =====
-- The slots of a connection: no operation lets more calls in than the registry allows.
use codebridge.Base.{ℕ, ◌≤◌, String, Bool, List, [], ◌∷◌}
use codebridge.Manager.Connections.{Device, AgentResponse, Registry}
use codebridge.Manager.Registry.{put, remove, touch, disconnect}
use codebridge.Manager.Calls.{Start, Waiting, start_call, finish_call, deliver}

abbrev pub IsBounded : Registry → Type 0
IsBounded r = (c : ℕ) → (r.heap c).sem ≤ r.max_inflight

-- An operation on the registry, with what it draws from outside.
pub data Op : Type 0 where
  puts : Device → Op
  removes : String → ℕ → Op
  touches : String → ℕ → Op
  disconnects : String → Op
  starts : String → String → Start → Op
  finishes : Waiting → Bool → Op
  delivers : ℕ → String → AgentResponse → Op

unfoldable pub apply : (ℕ → String) → Registry → Op → Registry
apply print r (puts dev) = (put r dev).0
apply print r (removes id target) = remove r id target
apply print r (touches id now) = touch r id now
apply print r (disconnects id) = (disconnect r id).0
apply print r (starts account id outcome) = (start_call r print account id outcome).0
apply print r (finishes w stops) = (finish_call r w stops).0
apply print r (delivers c id resp) = deliver r c id resp

unfoldable pub apply_all : (ℕ → String) → Registry → List Op → Registry
apply_all print r [] = r
apply_all print r (op ∷ ops) = apply_all print (apply print r op) ops
