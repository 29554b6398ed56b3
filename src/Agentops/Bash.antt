-- ===== src/Agentops/Bash.antt =====
-- internal/agentops/bash.go: what stands between a caller's command and `bash -c`, and the same
-- admission check of run_manager.go for a subagent. Running the command is not modelled: `runs` is
-- the call of `execBash`. The result of `resolveWorkspaceRoot` is an argument.
pub mod Gate
pub mod Single
mod Tests
use codebridge.Base.{
  ℕ, String, Bool, true, false, ◌&&◌, Option, none, some, List, [], ◌∷◌, ltb, str_eq, if◌then◌else◌,
}
use codebridge.Base.Map.{Dict, lookup, erase}
use codebridge.Base.Text.{Text, codes, is_empty, text_eq, trim_space}
use codebridge.Agentops.Permissions.{
  PermissionRequest, PermissionStore, Effect, ask, allow, deny, permission_decision, park_request,
}

pub data Outcome : Type 0 where
  command_required command_denied root_unavailable : Outcome
  permission_needed : String → Outcome
  runs : String → Text → Outcome

abbrev pub req_for : Option PermissionRequest → Text → Bool
req_for none command = false
req_for (some req) command = text_eq req.command command

-- The range over `perms.granted`: the id of the first grant that is set and whose request, still
-- parked, is for this command.
unfoldable pub granted_for : Dict Bool → Dict PermissionRequest → Text → Option String
granted_for [] pending command = none
granted_for ((id, ok) ∷ granted) pending command =
    if ok && req_for (lookup id pending) command
    then some id
    else granted_for granted pending command

abbrev spent : PermissionStore → Option String → PermissionStore × Bool
spent st none = (st, false)
spent st (some id) =
    (record st { granted = erase id st.granted; pending = erase id st.pending }, true)

unfoldable pub consume_grant_once : PermissionStore → Text → PermissionStore × Bool
consume_grant_once st command = spent st (granted_for st.granted st.pending command)

-- `pendingBashRequest` and `pendingSubagentRequest`: a parked request of the tool for the same
-- command that has not expired, or "".
unfoldable pub pending_request : Dict PermissionRequest → String → Text → ℕ → String
pending_request [] tool command now = ""
pending_request ((id, req) ∷ pending) tool command now =
    if str_eq req.tool tool && text_eq req.command command && ltb now req.expires_at
    then id
    else pending_request pending tool command now

-- A request that waits is named again; only where there is none, one is parked.
unfoldable pub ask_permission :
    PermissionStore → String → ℕ → String → Text → PermissionStore × String
unfolding pending_request
ask_permission st fresh now tool command =
    let waiting = pending_request st.pending tool command now in
    if str_eq waiting "" then (park_request st fresh now tool command "", fresh) else (st, waiting)

abbrev start : Option String → Text → Outcome
start none command = root_unavailable
start (some root) command = runs root command

abbrev asked : PermissionStore × String → PermissionStore × Outcome
asked (st, id) = (st, permission_needed id)

-- An unmatched command: a grant for it is used up, or permission is asked for.
abbrev unmatched :
    PermissionStore × Bool
    → PermissionStore
    → Option String
    → String
    → ℕ
    → Text
    → PermissionStore × Outcome
unmatched (st', true) st root fresh now command = (st', start root command)
unmatched (st', false) st root fresh now command =
    asked (ask_permission st fresh now "bash" command)

abbrev gated :
    Effect → PermissionStore → Option String → String → ℕ → Text → PermissionStore × Outcome
gated deny st root fresh now command = (st, command_denied)
gated ask st root fresh now command =
    unmatched (consume_grant_once st command) st root fresh now command
gated allow st root fresh now command = (st, start root command)

unfoldable pub run_bash :
    PermissionStore → Option String → String → ℕ → Text → PermissionStore × Outcome
unfolding consume_grant_once ask_permission
run_bash st root fresh now command =
    let c = trim_space command in
    if is_empty c
    then (st, command_required)
    else gated (permission_decision st "bash" c).0 st root fresh now c

pub data Admission : Type 0 where
  admitted workspace_unavailable client_denied : Admission
  needs_permission : String → Admission

abbrev needs : PermissionStore × String → PermissionStore × Admission
needs (st, id) = (st, needs_permission id)

abbrev admit : Effect → PermissionStore → String → ℕ → Text → PermissionStore × Admission
admit deny st fresh now client = (st, client_denied)
admit ask st fresh now client = needs (ask_permission st fresh now "agent" client)
admit allow st fresh now client = (st, admitted)

-- `resolved` is the client that `resolveSubagentCall` picks from the profiles, "omp" by default.
unfoldable pub subagent_preflight :
    PermissionStore → Option String → String → ℕ → Text → PermissionStore × Admission
unfolding ask_permission
subagent_preflight st none fresh now resolved = (st, workspace_unavailable)
subagent_preflight st (some root) fresh now resolved =
    let trimmed = trim_space resolved in
    let client = if is_empty trimmed then codes "omp" else trimmed in
    admit (permission_decision st "agent" client).0 st fresh now client
