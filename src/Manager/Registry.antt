-- ===== src/Manager/Registry.antt =====
-- internal/manager/registry.go: which connection a device id names, and what the registry lists.
pub mod Tenancy
pub mod Delivery
pub mod Replacing
use codebridge.Base.{
  ℕ, zero, suc, ◌+◌, ◌-◌, String, Bool, true, false, ◌||◌, not, Option, none, some, List, [], ◌∷◌,
  str_eq, nat_eq, ltb, if◌then◌else◌,
}
use codebridge.Base.Map.{Dict, lookup, insert, erase}
use codebridge.Manager.Connections.{
  CustomTool, ToolPolicy, Workspace, Device, AgentResponse, AgentConn, Registry, write_conn, offer,
  offer_all, failure, fail_pending, close_conn, new_conn, Error, Result, conn_for, ok, err,
  offline_or_unknown,
}

abbrev pub with_conn : Registry → Device → Registry
with_conn r dev = record (write_conn r r.next (new_conn dev)) {
  devices = insert dev.id r.next r.devices;
  next = suc r.next;
}

abbrev pub retire : Registry → Option ℕ → Registry
retire r none = r
retire r (some old) = close_conn (fail_pending r old "agent connection replaced") old

-- `Put`: the registry and the new connection.
unfoldable pub put : Registry → Device → Registry × ℕ
put r dev = (retire (with_conn r dev) (lookup dev.id r.devices), r.next)

abbrev pub same_conn : Option ℕ → ℕ → Bool
same_conn none c = false
same_conn (some d) c = nat_eq d c

-- `Remove`; a nil target has no pending calls and unregisters nothing that is there.
unfoldable pub remove : Registry → String → ℕ → Registry
remove r id target =
    fail_pending
      (if same_conn (lookup id r.devices) target
        then record r { devices = erase id r.devices }
        else r)
      target "agent disconnected"

abbrev pub seen : Registry → Option ℕ → ℕ → Registry
seen r none now = r
seen r (some c) now =
    let conn = r.heap c in
    write_conn r c (record conn { device = record (conn.device) { last_seen = now } })

unfoldable pub touch : Registry → String → ℕ → Registry
touch r id now = seen r (lookup id r.devices) now

abbrev pub online_device : AgentConn → Device
online_device conn = record (conn.device) { online = true }

unfoldable pub list_from : Registry → Dict ℕ → List Device
list_from r [] = []
list_from r ((id, c) ∷ rest) = online_device (r.heap c) ∷ list_from r rest

unfoldable pub list : Registry → List Device
unfolding list_from
list r = list_from r r.devices

unfoldable pub list_account_from : Registry → String → Dict ℕ → List Device
list_account_from r account [] = []
list_account_from r account ((id, c) ∷ devices) =
    let rest = list_account_from r account devices in
    if not (str_eq ((r.heap c).device).account_id account)
    then rest
    else online_device (r.heap c) ∷ rest

unfoldable pub list_account : Registry → String → List Device
unfolding list_account_from
list_account r account = list_account_from r account r.devices

-- `Get`
unfoldable pub get : Registry → String → Option ℕ
get r id = lookup id r.devices

abbrev pub cut_off : Registry → Option ℕ → Registry × Bool
cut_off r none = (r, false)
cut_off r (some c) = (close_conn (fail_pending r c "agent disconnected") c, true)

unfoldable pub disconnect : Registry → String → Registry × Bool
disconnect r id = cut_off r (lookup id r.devices)

abbrev pub workspaces_of : Registry → String → Option ℕ → Result (List Workspace)
workspaces_of r id none = err (offline_or_unknown id)
workspaces_of r id (some c) = ok ((r.heap c).device).workspaces

unfoldable pub workspaces : Registry → String → String → Result (List Workspace)
workspaces r account id = workspaces_of r id (conn_for r account (lookup id r.devices))
