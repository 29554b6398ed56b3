-- ===== src/Manager/ToolPolicy.antt =====
-- internal/manager/tool_policy.go: which built-in tools an account sees and which custom tools.
pub mod Offered
pub mod Custom
use codebridge.Base.{
  String, Bool, true, false, ◌&&◌, ◌||◌, not, Option, none, some, List, [], ◌∷◌, ◌++◌, str_eq, any,
  if◌then◌else◌, select,
}
use codebridge.Manager.Registry.{list_account}
use codebridge.Manager.Connections.{CustomTool, ToolPolicy, Device, Registry}

abbrev pub builtin_tool_names : List String
builtin_tool_names =
    "list_devices" ∷ "list_workspaces" ∷ "list" ∷ "read" ∷ "edit" ∷ "write" ∷ "apply_patch"
    ∷ "rollback_patch" ∷ "bash" ∷ "agents_list" ∷ "agent" ∷ "agent_start" ∷ "agent_status"
    ∷ "agent_result" ∷ "agent_cancel" ∷ "agent_runs" ∷ "permission_grant" ∷ []

abbrev pub pi_core_tools : List String
pi_core_tools =
    "list_devices" ∷ "list_workspaces" ∷ "list" ∷ "read" ∷ "edit" ∷ "write" ∷ "bash" ∷ "agents_list"
    ∷ "agent" ∷ "permission_grant" ∷ "agent_start" ∷ "agent_status" ∷ "agent_result"
    ∷ "agent_cancel" ∷ "agent_runs" ∷ []

unfoldable pub among : String → List String → Bool
among name names = any (λ n. str_eq n name) names

unfoldable pub is_builtin_tool : String → Bool
is_builtin_tool name = among name builtin_tool_names

unfoldable pub is_core_tool : String → Bool
is_core_tool name = among name pi_core_tools

abbrev pub is_nil : List String → Bool
is_nil [] = true
is_nil (x ∷ xs) = false

-- One round of the loop of `toolDisabledForAccount`: whether it returns true.
abbrev pub hidden_by : String → Option ToolPolicy → Bool
hidden_by tool none = not (is_core_tool tool)
hidden_by tool (some policy) =
    among tool policy.disabled_tools
    || (if is_nil policy.enabled_tools
        then not (is_core_tool tool)
        else not (among "*" policy.enabled_tools) && not (among tool policy.enabled_tools))

unfoldable pub disabled_loop : String → List Device → Bool
disabled_loop tool [] = false
disabled_loop tool (d ∷ ds) =
    let rest = disabled_loop tool ds in if hidden_by tool d.tool_policy then true else rest

unfoldable pub tool_disabled_for_account : Registry → String → String → Bool
tool_disabled_for_account r account tool = disabled_loop tool (list_account r account)

-- The inner loop of `customToolsForAccount` on the custom tools of one device, with the names seen.
unfoldable pub custom_loop : List CustomTool → List String → List CustomTool × List String
custom_loop [] seen = ([], seen)
custom_loop (c ∷ cs) seen =
    let skipped = custom_loop cs seen in
    let added = custom_loop cs (c.name ∷ seen) in
    if among c.name seen || not (is_builtin_tool c.tool) || str_eq c.name ""
    then skipped
    else (c ∷ added.0, added.1)

abbrev pub custom_of : Option ToolPolicy → List CustomTool
custom_of none = []
custom_of (some policy) = policy.custom_tools

unfoldable pub custom_devices : List Device → List String → List CustomTool
unfolding custom_loop
custom_devices [] seen = []
custom_devices (d ∷ ds) seen =
    let here = custom_loop (custom_of d.tool_policy) seen in here.0 ++ custom_devices ds here.1

unfoldable pub custom_tools_for_account : Registry → String → List CustomTool
unfolding custom_devices
custom_tools_for_account r account = custom_devices (list_account r account) []

-- The tools that `registerWithPolicy` registers, built-in ones first.
unfoldable pub registered_tools : Registry → String → List String × List CustomTool
registered_tools r account = (
  select (λ name. not (tool_disabled_for_account r account name)) builtin_tool_names,
  custom_tools_for_account r account,
)
