-- ===== src/Manager/Connections.antt =====
-- internal/manager/registry.go: the connections of devices. A pointer to an AgentConn is its number
-- in a heap of connections, since the registry and the calls that wait share them. The buffered
-- channel of a pending call is the answer it holds, if any. Progress hooks are not modelled.
use codebridge.Base.{
  ℕ, String, Bool, true, false, Option, none, some, List, [], ◌∷◌, str_eq, nat_eq, if◌then◌else◌,
}
use codebridge.Base.Map.{Dict}

pub record CustomTool : Type 0 where
  pub name : String
  pub description : String
  pub tool : String
  pub args : Dict String

pub record ToolPolicy : Type 0 where
  pub enabled_tools : List String
  pub disabled_tools : List String
  pub custom_tools : List CustomTool

pub record Workspace : Type 0 where
  pub name : String
  pub path : String
  pub writable : Bool

pub record Device : Type 0 where
  pub id : String
  pub name : String
  pub account_id : String
  pub version : String
  pub online : Bool
  pub connected_at : ℕ
  pub last_seen : ℕ
  pub workspaces : List Workspace
  pub tool_policy : Option ToolPolicy

-- `body` is Data.
pub record AgentResponse : Type 0 where
  pub ok : Bool
  pub body : String
  pub error : String

-- `pend` by request id; `sem` counts the calls that hold a slot.
pub record AgentConn : Type 0 where
  pub device : Device
  pub closed : Bool
  pub pend : Dict (Option AgentResponse)
  pub sem : ℕ

pub record Registry : Type 0 where
  pub devices : Dict ℕ
  pub max_inflight : ℕ
  pub seq : ℕ
  pub heap : ℕ → AgentConn
  pub next : ℕ

unfoldable pub write_conn : Registry → ℕ → AgentConn → Registry
write_conn r c conn = record r { heap = λ i. if nat_eq c i then conn else r.heap i }

-- A send on a channel of capacity 1 that gives up when it is full.
abbrev pub offer : AgentResponse → Option AgentResponse → Option AgentResponse
offer resp none = some resp
offer resp (some old) = some old

unfoldable pub offer_all : AgentResponse → Dict (Option AgentResponse) → Dict (Option AgentResponse)
offer_all resp [] = []
offer_all resp ((id, o) ∷ pend) = (id, offer resp o) ∷ offer_all resp pend

unfoldable pub failure : String → AgentResponse
failure message = record {
  ok = false;
  body = "";
  error = if str_eq message "" then "agent disconnected" else message;
}

unfoldable pub fail_pending : Registry → ℕ → String → Registry
unfolding write_conn offer_all failure
fail_pending r c message =
    let conn = r.heap c in
    write_conn r c (record conn { pend = offer_all (failure message) conn.pend })

unfoldable pub close_conn : Registry → ℕ → Registry
unfolding write_conn
close_conn r c = write_conn r c (record (r.heap c) { closed = true })

abbrev pub new_conn : Device → AgentConn
new_conn dev = record { device = dev; closed = false; pend = []; sem = 0 }

pub data Error : Type 0 where
  offline_or_unknown : String → Error
  cancelled write_failed : Error
  agent_error : String → Error

pub data Result {ℓ} (A : Type ℓ) : Type ℓ where
  ok : A → Result A
  err : Error → Result A

-- The connection that a device id names for an account.
abbrev pub conn_for : Registry → String → Option ℕ → Option ℕ
conn_for r account none = none
conn_for r account (some c) = if str_eq ((r.heap c).device).account_id account then some c else none
